-- ===== src/Data.antt =====
-- internal/grpc/data: the data service, with its connections and the size of its chunks.
pub mod Errors
pub mod Messages
pub mod Chunks
pub mod Connections
pub mod Semaphore
pub mod Server
pub mod Opening
pub mod Transfer
pub mod Folders
pub mod Service
pub mod Upload
pub mod Download
pub mod Overlap
pub mod Sample
mod Tests
