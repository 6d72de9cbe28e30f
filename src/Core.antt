-- ===== src/Core.antt =====
-- headers/revdash/core: the types that every other part of the program shares.
pub mod Error
pub mod Types
pub mod Float
pub mod Telemetry
pub mod Diagnostics
pub mod Source
pub mod AsyncSource
pub mod Store
pub mod Aggregator
mod Tests
