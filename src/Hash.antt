-- ===== src/Hash.antt =====
-- src/metadata_hash.cpp: the hashes of file contents, streamed.
pub mod Words
pub mod Blocks
pub mod Buffer
pub mod XxHash64
pub mod Sha256
pub mod Builder
mod Examples
