-- ===== src/Uploads.antt =====
-- Uploaded files, of features/uploaded-file.
pub mod Bytes
pub mod Address
pub mod Address6
pub mod Fetch
pub mod Hops
pub mod Guarded
pub mod Archive
pub mod Ooxml
pub mod Entries
pub mod Contained
pub mod Names
pub mod Paths
pub mod Parents
pub mod Confined
pub mod Security
pub mod Accepted
pub mod Mapped
pub mod Masks
pub mod Reserved
mod Tests
mod ContainerTests
