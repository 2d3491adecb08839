-- ===== src/Gallery.antt =====
-- src/store/gallery.cpp and src/store/identity.cpp: the state of a gallery and its operations. Each
-- public operation holds the gallery's lock from its first read to its last write, and reads the
-- clock once, as the argument `now`.
pub mod State
pub mod Invariant
pub mod Identities
pub mod Faces
pub mod Images
pub mod Upgrade
pub mod Shelf
pub mod Curation
pub mod Search
pub mod Dedup
pub mod Reads
mod Counts
pub mod Load
pub mod Queries
pub mod Shared
pub mod Labels
pub mod Recluster
pub mod Impostor
pub mod Reach
