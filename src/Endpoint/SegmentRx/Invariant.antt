-- ===== src/Endpoint/SegmentRx/Invariant.antt =====
-- When the state of endpoint/segment_rx.rs is well formed: the slots in use hold segments of the
-- window, in order, and not the one expected next.
use redpine_rs.Common.{
  ℕ, zero, suc, ◌+◌, ◌-◌, ◌≤◌, ◌<◌, ◌≡◌, refl, ap, ◌≢◌, inl, inr, Bool, true, false, ◌&&◌, List, [],
  arith, ltb, ◌==◌, ltb→lt, le→leb, Bool-cases, Run, done, length, drop, length-drop, length-append,
}
use redpine_rs.Common.Word.{wrapping_add, wrapping_sub, IsU32}
use redpine_rs.Endpoint.SegmentRx.{
  swap_slots_if_backward, swap_slots, deliver_expected, swap, SegmentRx, Slot, save_segment,
  push_history_ack, push_history_skips, advance_window_past, take_segment,
}

-- How far a segment lies past the base of the window.
abbrev pub delta : SegmentRx → ℕ → ℕ
delta rx id = wrapping_sub id rx.window.base_id

abbrev pub IsWaiting : SegmentRx → Slot → Type 0
IsWaiting rx slot = IsU32 slot.id × (delta rx slot.id < rx.window.size)

-- `capacity` is `segment_size_max`. The first expected segment may wait in the first slot, until
-- `deliver_expected` runs.
pub record IsPending (capacity : ℕ) (rx : SegmentRx) : Type 0 where
  pub base_u32 : IsU32 rx.window.base_id
  pub size_u32 : IsU32 rx.window.size
  pub few : rx.len ≤ 2
  pub room_0 : length rx.slot_0.bytes ≡ capacity
  pub room_1 : length rx.slot_1.bytes ≡ capacity
  pub waiting_0 : 0 < rx.len → IsWaiting rx rx.slot_0
  pub waiting_1 :
      1 < rx.len → IsWaiting rx rx.slot_1 × (delta rx rx.slot_0.id < delta rx rx.slot_1.id)

pub record IsValid (capacity : ℕ) (rx : SegmentRx) : Type 0 where
  pub pending : IsPending capacity rx
  pub not_expected : 0 < rx.len → 0 < delta rx rx.slot_0.id

pub save_segment-done :
    (capacity : ℕ) (slot : Slot) (id : ℕ) (nonce : Bool) (bytes : List ℕ)
    → length slot.bytes ≡ capacity
    → length bytes ≤ capacity
    → (s : Slot) × (save_segment slot id nonce bytes ≡ done s)
      × (s.id ≡ id)
      × (length s.bytes ≡ capacity)
unfolding save_segment
save_segment-done capacity slot id nonce bytes e h =
    rw (le→leb (length bytes) (length slot.bytes) (omega arith)) (
      _,
      refl,
      refl,
      omega (
        arith,
        length-append bytes (drop (length bytes) slot.bytes),
        length-drop (length bytes) slot.bytes,
      ),
    )

-- Taking a segment of the window moves the window past it; what waits further on still does.
pub take_segment-base :
    (skipped id : ℕ) (nonce : Bool) (rx : SegmentRx)
    → let rx' = take_segment skipped id nonce rx in
      (rx'.window.base_id ≡ wrapping_add id 1)
      × (rx'.window.size ≡ rx.window.size)
      × (rx'.len ≡ rx.len)
      × (rx'.slot_0 ≡ rx.slot_0)
      × (rx'.slot_1 ≡ rx.slot_1)
unfolding advance_window_past push_history_ack push_history_skips
take_segment-base skipped id nonce rx = elim (Bool-cases (ltb skipped 32)) [
  | inl few ↦ rw few (refl, refl, refl, refl, refl)
  | inr many ↦ rw many (refl, refl, refl, refl, refl)
]

pub further :
    (base id other size : ℕ)
    → IsU32 base
    → IsU32 id
    → IsU32 other
    → wrapping_sub id base < wrapping_sub other base
    → wrapping_sub other base < size
    → (wrapping_sub other (wrapping_add id 1) + wrapping_sub id base + 1 ≡ wrapping_sub other base)
further base id other size hb hi ho h k = omega arith

pub not_here :
    (len id base : ℕ)
    → (ltb 0 len && id == base) ≡ false
    → IsU32 id
    → IsU32 base
    → 0 < len
    → 0 < wrapping_sub id base
not_here len id base e hi hb h = ground arith

-- A run that returns, and leaves a state of which `P` holds.
abbrev pub Returns : {O : Type 0} → (SegmentRx → Type 0) → Run (SegmentRx × O) → Type 0
Returns {O} P r = (rx : SegmentRx) × (o : O) × (r ≡ done (rx, o)) × P rx

deliver_expected-cons :
    (capacity fuel : ℕ) (rx : SegmentRx)
    → (rx.len == 2) ≡ true
    → IsPending capacity rx
    → rx.slot_0.id ≡ rx.window.base_id
    → IsPending capacity
        (record (swap (advance_window_past rx.slot_0.id (push_history_ack rx.slot_0.nonce rx))) {
          len = rx.len - 1;
        })
unfolding advance_window_past push_history_ack
deliver_expected-cons capacity fuel rx two p e =
    let w = p.waiting_0 (ground arith) in
    let w1 = p.waiting_1 (ground arith) in
    record {
      base_u32 = omega arith;
      size_u32 = p.size_u32;
      few = omega (arith, p.few);
      room_0 = p.room_1;
      room_1 = p.room_0;
      waiting_0 = λ _. (
        w1.0.0,
        omega (
          arith,
          e,
          w1.1,
          w1.0.1,
          further rx.window.base_id rx.slot_0.id rx.slot_1.id rx.window.size p.base_u32 w.0 w1.0.0
              w1.1 w1.0.1,
        ),
      );
      waiting_1 = λ h. absurd (omega (arith, p.few));
    }

deliver_expected-last :
    (capacity fuel : ℕ) (rx : SegmentRx)
    → (rx.len == 2) ≡ false
    → IsPending capacity rx
    → IsPending capacity
        (record (advance_window_past rx.slot_0.id (push_history_ack rx.slot_0.nonce rx)) {
          len = rx.len - 1;
        })
unfolding advance_window_past push_history_ack
deliver_expected-last capacity fuel rx one p =
    let few = p.few in
    let less : rx.len ≤ 1 = ground arith in
    record {
      base_u32 = omega arith;
      size_u32 = p.size_u32;
      few = omega arith;
      room_0 = p.room_0;
      room_1 = p.room_1;
      waiting_0 = λ h. absurd (omega arith);
      waiting_1 = λ h. absurd (omega arith);
    }

pub deliver_expected-IsValid :
    (capacity fuel : ℕ) (rx : SegmentRx)
    → IsPending capacity rx
    → rx.len ≤ fuel
    → Returns (IsValid capacity) (deliver_expected fuel rx)
unfolding deliver_expected swap_slots
deliver_expected-IsValid capacity zero rx p h =
    (rx, [], refl, record { pending = p; not_expected = λ k. absurd (omega arith) })
deliver_expected-IsValid capacity (suc fuel) rx p h =
    elim (Bool-cases (ltb 0 rx.len && rx.slot_0.id == rx.window.base_id)) [
      | inr stop ↦ rw stop (
        rx,
        [],
        refl,
        record {
          pending = p;
          not_expected = λ k.
              not_here rx.len rx.slot_0.id rx.window.base_id stop (p.waiting_0 k).0 p.base_u32 k;
        },
      )
      | inl expected ↦
          let here : rx.slot_0.id ≡ rx.window.base_id = ground arith in
          let some_left : 0 < rx.len = ground arith in
          elim (Bool-cases (rx.len == 2)) [
            | inl two ↦
                let (rx', out, e, v) =
                  deliver_expected-IsValid capacity fuel _
                    (deliver_expected-cons capacity fuel rx two p here) (omega arith) in
                rw (expected, two) (rw e (rx', _, refl, v))
            | inr one ↦
                let (rx', out, e, v) =
                  deliver_expected-IsValid capacity fuel _
                    (deliver_expected-last capacity fuel rx one p) (omega arith) in
                rw (expected, one) (rw e (rx', _, refl, v))
          ]
    ]

-- Two segments in the slots, in any order.
pub record IsPair (capacity : ℕ) (rx : SegmentRx) : Type 0 where
  pub base_u32 : IsU32 rx.window.base_id
  pub size_u32 : IsU32 rx.window.size
  pub two : rx.len ≡ 2
  pub room_0 : length rx.slot_0.bytes ≡ capacity
  pub room_1 : length rx.slot_1.bytes ≡ capacity
  pub waiting_0 : IsWaiting rx rx.slot_0
  pub waiting_1 : IsWaiting rx rx.slot_1
  pub differ : rx.slot_0.id ≢ rx.slot_1.id

pub delta_injective :
    (base id other : ℕ)
    → IsU32 base
    → IsU32 id
    → IsU32 other
    → id ≢ other
    → wrapping_sub id base ≢ wrapping_sub other base
delta_injective base id other hb hi ho ne e = ne (omega arith)

pub strict : (a b : ℕ) → ltb b a ≡ false → a ≢ b → a < b
strict a b h ne = ground arith

pub swap_slots_if_backward-IsPending :
    (capacity : ℕ) (rx : SegmentRx)
    → IsPair capacity rx
    → (rx' : SegmentRx) × (swap_slots_if_backward rx ≡ done rx')
      × IsPending capacity rx'
      × (0 < delta rx rx.slot_0.id → 0 < delta rx rx.slot_1.id → 0 < delta rx' rx'.slot_0.id)
unfolding swap_slots_if_backward swap_slots
swap_slots_if_backward-IsPending capacity rx p =
    let ne =
      delta_injective rx.window.base_id rx.slot_0.id rx.slot_1.id p.base_u32 p.waiting_0.0
        p.waiting_1.0 p.differ in
    elim (Bool-cases (ltb (delta rx rx.slot_1.id) (delta rx rx.slot_0.id))) [
      | inl backward ↦
          rw (backward, ap (λ l. l == 2) p.two)
            (
              swap rx,
              refl,
              record {
                base_u32 = p.base_u32;
                size_u32 = p.size_u32;
                few = omega (arith, p.two);
                room_0 = p.room_1;
                room_1 = p.room_0;
                waiting_0 = λ _. p.waiting_1;
                waiting_1 = λ _. (p.waiting_0, ltb→lt _ _ backward);
              },
              λ h k. k,
            )
      | inr forward ↦
          rw (forward, ap (λ l. l == 2) p.two)
            (
              rx,
              refl,
              record {
                base_u32 = p.base_u32;
                size_u32 = p.size_u32;
                few = omega (arith, p.two);
                room_0 = p.room_0;
                room_1 = p.room_1;
                waiting_0 = λ _. p.waiting_0;
                waiting_1 = λ _. (p.waiting_1, strict _ _ forward ne);
              },
              λ h k. h,
            )
    ]
