-- ===== src/Endpoint/SegmentRx/Receive.antt =====
-- About `receive` of endpoint/segment_rx.rs, a branch at a time.
use redpine_rs.Common.{ℕ, ◌≡◌, List, Run, done}
use redpine_rs.Endpoint.SegmentRx.{SegmentRx}

-- A run that returns, and leaves a state of which `P` holds.
abbrev pub Received : (SegmentRx → Type 0) → Run (SegmentRx × List (List ℕ) × ℕ) → Type 0
Received P r =
    (rx : SegmentRx) × (delivered : List (List ℕ)) × (len : ℕ) × (r ≡ done (rx, delivered, len))
    × P rx
