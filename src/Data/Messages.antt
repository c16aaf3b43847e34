-- ===== src/Data/Messages.antt =====
-- The messages of proto/data/data.proto that the data service receives and returns.
use mhserver.Common.{ℕ, Bool, Option, List, Text}
use mhserver.Data.Connections.{ConnectionMode}

pub record ConnectionRequest : Type 0 where
  pub username : Text
  pub mode : ConnectionMode
  pub directory : Text
  pub filename : Text
  pub size : ℕ

pub record FilePart : Type 0 where
  pub chunk : List ℕ
  pub offset : ℕ

pub record SaveChunk : Type 0 where
  pub uuid : Text
  pub part : Option FilePart

pub record GetChunk : Type 0 where
  pub uuid : Text
  pub chunk_id : ℕ

pub record Directory : Type 0 where
  pub user : Text
  pub value : Text

pub record ConnectionReply : Type 0 where
  pub uuid : Text
  pub chunk_size : ℕ
  pub chunks_count : ℕ

pub record FileInfo : Type 0 where
  pub name : Text
  pub is_dir : Bool
  pub size : ℕ
  pub mod_time : ℕ
