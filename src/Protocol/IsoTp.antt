-- ===== src/Protocol/IsoTp.antt =====
-- isotp_trace.hpp and isotp_trace.cpp. The children hold the parser of single frames, the
-- reassembler and the segmentation, and then what is proved of them.
pub mod Frames
pub mod Reassembler
pub mod Segment
pub mod Trace
pub mod Steps
pub mod RoundTrip
pub mod Isolation
pub mod Invariant
pub mod Expiry
mod Tests
