-- ===== src/Data/Upload.antt =====
-- A whole upload: a client cuts a file into chunks and sends each of them by SaveData
-- (internal/grpc/data/server.go), in any order and with any other calls' readings of the clock.
pub mod Chunks
pub mod Contents
mod Tests
use mhserver.Common.{ℕ, ◌*◌, some, List, [], ◌∷◌, Text, take, drop}
use mhserver.Os.{patch}
use mhserver.Data.Messages.{SaveChunk}
use mhserver.Data.Service.{Event, saves_data}

-- Chunk `k` of a file, for chunks of `size` bytes.
abbrev pub chunk_at : ℕ → List ℕ → ℕ → List ℕ
chunk_at size file k = take size (drop (size * k) file)

abbrev pub chunk_message : Text → ℕ → List ℕ → ℕ → SaveChunk
chunk_message uuid size file k = record {
  uuid = uuid;
  part = some (record { chunk = chunk_at size file k; offset = size * k });
}

-- The calls that send the chunks of a list of numbers, each with its two readings of the clock.
pub record Turn : Type 0 where
  pub number : ℕ
  pub now : ℕ
  pub later : ℕ

unfoldable pub saves : Text → ℕ → List ℕ → List Turn → List Event
saves uuid size file [] = []
saves uuid size file (t ∷ ts) =
    saves_data t.now t.later (chunk_message uuid size file t.number) ∷ saves uuid size file ts

-- What the chunks make of the contents of a file.
unfoldable pub patched : ℕ → List ℕ → List Turn → List ℕ → List ℕ
patched size file [] old = old
patched size file (t ∷ ts) old =
    patched size file ts (patch old (size * t.number) (chunk_at size file t.number))
