-- ===== src/Endpoint/SegmentRx/Order.antt =====
-- About `sync` of endpoint/segment_rx.rs on empty slots.
use redpine_rs.Common.{ℕ, ◌≤◌, ◌≡◌, refl, false, ◌&&◌, [], arith, ltb, leb}
use redpine_rs.Common.Word.{wrapping_sub}
use redpine_rs.Endpoint.SegmentRx.{SegmentRx, sync, min_delta}

nothing_due : (base size delta : ℕ) → size ≤ base → (ltb base delta && leb delta size) ≡ false
nothing_due base size delta h = ground arith

-- Where the slots are empty and the base id is at least the size of the window, `sync` does
-- nothing, whatever the id.
pub sync-stuck :
    (rx : SegmentRx) (next_segment_id : ℕ)
    → rx.len ≡ 0
    → rx.window.size ≤ rx.window.base_id
    → sync rx next_segment_id ≡ (rx, [])
unfolding sync min_delta
sync-stuck rx next_segment_id e h =
    let delta = wrapping_sub next_segment_id rx.window.base_id in
    let quiet = nothing_due rx.window.base_id rx.window.size delta h in rw (e, quiet) refl
