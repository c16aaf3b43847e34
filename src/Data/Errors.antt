-- ===== src/Data/Errors.antt =====
-- internal/grpc/data/errors.go and the directory error of internal/repository/dirs/dirs.go.
use mhserver.Common.{Text, codes}

pub data DataError : Type 0 where
  bad_uuid connection_not_found unexpected_file_change incorrect_chunk_size : DataError
  dir_not_found dir_already_exist bad_dir_syntax : DataError
  empty_filename bad_filename_syntax null_size_to_save not_enough_disk_space : DataError
  file_not_exist read_out_of_file internal : DataError

unfoldable pub message : DataError → Text
message bad_uuid = codes "bad connection uuid"
message connection_not_found = codes "connection not found or ended"
message unexpected_file_change = codes "unexpected file change"
message incorrect_chunk_size = codes "incorrect chunk size"
message dir_not_found = codes "directory not found"
message dir_already_exist = codes "directory already exist"
message bad_dir_syntax = codes "directory have bad syntax"
message empty_filename = codes "file name is empty"
message bad_filename_syntax = codes "filename have bad syntax"
message null_size_to_save = codes "null size to save"
message not_enough_disk_space = codes "not enough disk space"
message file_not_exist = codes "file not exist"
message read_out_of_file = codes "reading outside of file"
message internal = codes "internal error"
