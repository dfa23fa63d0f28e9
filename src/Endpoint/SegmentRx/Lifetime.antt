-- ===== src/Endpoint/SegmentRx/Lifetime.antt =====
-- About `receive` and `sync` of endpoint/segment_rx.rs in any sequence, from a new receiver on.
use redpine_rs.Common.{
  ℕ, ◌≤◌, ◌≡◌, refl, sym, ap, ◌∙◌, subst, inl, inr, Bool, ◌&&◌, List, [], ◌∷◌, ◌++◌, arith, ltb,
  leb, ◌==◌, Bool-cases, Run, done, ◌>>=◌, length,
}
use redpine_rs.Common.Word.{wrapping_sub, IsU32}
use redpine_rs.Endpoint.SegmentRx.{
  Slot, SegmentRx, receive, sync, min_delta, flush_slots, complete_sync, push_history_skips,
  deliver_slot,
}
use redpine_rs.Endpoint.SegmentRx.Invariant.{IsValid, take_segment-base}

-- What a sync leaves as it was: the size of the window and the room of the slots.
abbrev SameRoom : SegmentRx → SegmentRx → Type 0
SameRoom rx rx' =
    (rx'.window.size ≡ rx.window.size) × (rx'.slot_0 ≡ rx.slot_0) × (rx'.slot_1 ≡ rx.slot_1)

deliver_slot-SameRoom : (slot : Slot) (rx : SegmentRx) → SameRoom rx (deliver_slot slot rx)
deliver_slot-SameRoom slot rx =
    let (_, es, _, e0, e1) =
      take_segment-base (wrapping_sub slot.id rx.window.base_id) slot.id slot.nonce rx in
    (es, e0, e1)

flush_slots-SameRoom : (rx : SegmentRx) → SameRoom rx (flush_slots rx).0
unfolding flush_slots
flush_slots-SameRoom rx = elim (Bool-cases (ltb 0 rx.len)) [
  | inr none_left ↦ rw none_left (refl, refl, refl)
  | inl some_left ↦
      let rx' = deliver_slot rx.slot_0 rx in
      let (es, e0, e1) = deliver_slot-SameRoom rx.slot_0 rx in
      let (es', e0', e1') = deliver_slot-SameRoom rx.slot_1 rx' in
      elim (Bool-cases (rx.len == 2)) [
        | inl two ↦ rw (some_left, two) (es' ∙ es, e0' ∙ e0, e1' ∙ e1)
        | inr one ↦ rw (some_left, one) (es, e0, e1)
      ]
]

complete_sync-IsValid :
    (capacity : ℕ) (rx rx' : SegmentRx) (id : ℕ)
    → IsValid capacity rx
    → IsU32 id
    → SameRoom rx rx'
    → IsValid capacity (complete_sync id rx')
unfolding complete_sync push_history_skips
complete_sync-IsValid capacity rx rx' id v u (es, e0, e1) =
    elim (Bool-cases (ltb (wrapping_sub id rx'.window.base_id) 32)) [
      | inl few ↦ rw few (record {
        pending = record {
          base_u32 = u;
          size_u32 = subst IsU32 (sym es) v.pending.size_u32;
          few = omega arith;
          room_0 = ap (λ s. length s.bytes) e0 ∙ v.pending.room_0;
          room_1 = ap (λ s. length s.bytes) e1 ∙ v.pending.room_1;
          waiting_0 = λ h. absurd (omega arith);
          waiting_1 = λ h. absurd (omega arith);
        };
        not_expected = λ h. absurd (omega arith);
      })
      | inr many ↦ rw many (record {
        pending = record {
          base_u32 = u;
          size_u32 = subst IsU32 (sym es) v.pending.size_u32;
          few = omega arith;
          room_0 = ap (λ s. length s.bytes) e0 ∙ v.pending.room_0;
          room_1 = ap (λ s. length s.bytes) e1 ∙ v.pending.room_1;
          waiting_0 = λ h. absurd (omega arith);
          waiting_1 = λ h. absurd (omega arith);
        };
        not_expected = λ h. absurd (omega arith);
      })
    ]

-- A sync to a 32-bit id leaves a well formed receiver, whether it is accepted or not.
pub sync-IsValid :
    (capacity : ℕ) (rx : SegmentRx) (id : ℕ)
    → IsValid capacity rx
    → IsU32 id
    → IsValid capacity (sync rx id).0
unfolding sync
sync-IsValid capacity rx id v u =
    let delta = wrapping_sub id rx.window.base_id in
    elim (Bool-cases (ltb (min_delta rx) delta && leb delta rx.window.size)) [
      | inl accepted ↦
          rw accepted
            (complete_sync-IsValid capacity rx (flush_slots rx).0 id v u (flush_slots-SameRoom rx))
      | inr ignored ↦ rw ignored v
    ]

-- What arrives.
pub data Arrival : Type 0 where
  segment : ℕ → Bool → List ℕ → Arrival
  synced : ℕ → Arrival

abbrev pub handle : Arrival → SegmentRx → Run (SegmentRx × List (List ℕ))
handle (segment id nonce bytes) rx = do
  (rx', delivered, len) ← receive rx id nonce bytes
  done (rx', delivered)
handle (synced id) rx = done (sync rx id)

unfoldable pub handle_all : List Arrival → SegmentRx → Run (SegmentRx × List (List ℕ))
handle_all [] rx = done (rx, [])
handle_all (a ∷ arrivals) rx = do
  (rx', delivered) ← handle a rx
  (rx'', later) ← handle_all arrivals rx'
  done (rx'', delivered ++ later)

-- Ids of 32 bits, and segments that fit a slot.
abbrev pub IsReadable : ℕ → Arrival → Type 0
IsReadable capacity (segment id nonce bytes) = IsU32 id × (length bytes ≤ capacity)
IsReadable capacity (synced id) = IsU32 id

abbrev pub Handled : ℕ → Run (SegmentRx × List (List ℕ)) → Type 0
Handled capacity r =
    (rx : SegmentRx) × (delivered : List (List ℕ)) × (r ≡ done (rx, delivered))
    × IsValid capacity rx
