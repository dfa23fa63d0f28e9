-- ===== src/Endpoint.antt =====
-- endpoint/: what keeps one connection going. Each child is about one file of that directory.
pub mod Host
pub mod Float
pub mod Connection
pub mod FragmentQueues
pub mod AimdReno
pub mod Prio
pub mod SegmentRx
pub mod SegmentTx
