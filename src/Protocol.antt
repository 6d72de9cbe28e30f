-- ===== src/Protocol.antt =====
-- src/protocol and headers/revdash/protocol: decoding of what a vehicle answers.
pub mod IsoTp
pub mod Mode01
pub mod Diagnostics
