-- ===== src/Protocol/Diagnostics.antt =====
-- diagnostics.hpp and diagnostics.cpp: trouble codes (Modes 03 and 07), freeze frames (Mode 02), the
-- answer to a clear request (Mode 04) and vehicle information (Mode 09).
pub mod Service
pub mod Dtc
pub mod FreezeFrame
pub mod Metadata
pub mod Codes
pub mod Dedup
pub mod Merge
pub mod Vin
mod Tests
