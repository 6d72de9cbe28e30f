-- ===== src/Protocol/Mode01.antt =====
-- mode01.hpp and mode01.cpp: the catalogue of PIDs, the decoder of Mode 01 responses, the set of
-- supported PIDs and the requests that are made from it.
pub mod Catalog
pub mod Decode
pub mod Support
pub mod Entries
pub mod Soundness
pub mod Bitmap
pub mod Queries
mod Tests
