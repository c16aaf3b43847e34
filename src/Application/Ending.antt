-- ===== src/Application/Ending.antt =====
-- The program starts without a panic when its configuration can be read.
use mhserver.Common.Dict.{text_eq}
use mhserver.Os.{Os}
