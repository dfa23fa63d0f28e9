-- ===== src/Endpoint/SegmentRx.antt =====
-- endpoint/segment_rx.rs: the receiving side of a connection. Segments that arrive out of order
-- wait in two slots; a third one skips what is missing. The calls of the callback are the list of
-- the data delivered.
pub mod Order
pub mod Invariant
pub mod Receive
pub mod Lifetime
use redpine_rs.Common.{
  ℕ, zero, suc, ◌+◌, ◌-◌, ◌*◌, ◌/◌, ◌%◌, ◌^◌, ◌≤◌, ◌<◌, min, max, ◌≡◌, refl, sym, ap, ◌∙◌, subst,
  ◌≢◌, ◌⊎◌, inl, inr, Bool, true, false, ◌&&◌, ◌||◌, not, Option, none, some, List, [], ◌∷◌, ◌++◌,
  map, append_assoc, arith, ltb, leb, ◌==◌, if◌then◌else◌, ltb→lt, lt→ltb, le→ltb_false,
  ltb_false→le, le→leb, ==→eq, ==-self, Bool-cases, Option-cases, Run, done, panic, assert, ◌>>=◌,
  ◌>>◌, length, get_elem?, take, drop, All, length-drop, bit_and, bit_or, bit_xor, replicate,
}
use redpine_rs.Common.Word.{wrapping_add, wrapping_sub}
use redpine_rs.Buffer.{Window, contains}

-- `data` is a buffer of `segment_size_max` bytes, of which the first `len` count.
pub record Slot : Type 0 where
  pub id : ℕ
  pub nonce : Bool
  pub bytes : List ℕ
  pub len : ℕ

pub record SegmentRx : Type 0 where
  pub window : Window
  pub slot_0 : Slot
  pub slot_1 : Slot
  pub len : ℕ
  pub rx_history : ℕ
  pub nonce_history : ℕ

abbrev empty_slot : ℕ → Slot
empty_slot segment_size_max = record {
  id = 0;
  nonce = false;
  bytes = replicate {A = ℕ} segment_size_max 0;
  len = 0;
}

-- `SegmentRx::new`
unfoldable pub segment_rx : ℕ → ℕ → ℕ → SegmentRx
segment_rx window_base_id window_size segment_size_max = record {
  window = record { base_id = window_base_id; size = window_size };
  slot_0 = empty_slot segment_size_max;
  slot_1 = empty_slot segment_size_max;
  len = 0;
  rx_history = 0;
  nonce_history = 0;
}

-- `slot.data[..data.len()].copy_from_slice(data)` panics when the data is longer than the slot.
unfoldable pub save_segment : Slot → ℕ → Bool → List ℕ → Run Slot
save_segment slot id nonce bytes =
    if leb (length bytes) (length slot.bytes)
    then done (record {
      id = id;
      nonce = nonce;
      bytes = bytes ++ drop (length bytes) slot.bytes;
      len = length bytes;
    })
    else panic

-- `&slot.data[..slot.len]`
abbrev pub slot_data : Slot → List ℕ
slot_data slot = take slot.len slot.bytes

abbrev pub swap : SegmentRx → SegmentRx
swap rx = record rx { slot_0 = rx.slot_1; slot_1 = rx.slot_0 }

unfoldable pub swap_slots : SegmentRx → Run SegmentRx
swap_slots rx = do assert (rx.len == 2); done (swap rx)

unfoldable pub swap_slots_if_backward : SegmentRx → Run SegmentRx
unfolding swap_slots
swap_slots_if_backward rx = do
  assert (rx.len == 2)
  let slot_0_delta = wrapping_sub rx.slot_0.id rx.window.base_id
  let slot_1_delta = wrapping_sub rx.slot_1.id rx.window.base_id
  (if ltb slot_1_delta slot_0_delta then swap_slots rx else done rx)

abbrev pub bit : Bool → ℕ
bit false = 0
bit true = 1

unfoldable pub push_history_ack : Bool → SegmentRx → SegmentRx
push_history_ack nonce rx = record rx {
  rx_history = bit_or (rx.rx_history * 2 % 2 ^ 32) 1;
  nonce_history = bit_or (rx.nonce_history * 2 % 2 ^ 32) (bit nonce);
}

unfoldable pub push_history_skips : ℕ → SegmentRx → SegmentRx
push_history_skips count rx =
    if ltb count 32
    then record rx {
      rx_history = rx.rx_history * 2 ^ count % 2 ^ 32;
      nonce_history = rx.nonce_history * 2 ^ count % 2 ^ 32;
    }
    else record rx { rx_history = 0; nonce_history = 0 }

unfoldable pub advance_window_past : ℕ → SegmentRx → SegmentRx
advance_window_past new_base_id rx = record rx {
  window = record { base_id = wrapping_add new_base_id 1; size = rx.window.size };
}

-- The history and the window after the segment `id`, with `skipped` missing ones before it.
abbrev pub take_segment : ℕ → ℕ → Bool → SegmentRx → SegmentRx
take_segment skipped id nonce rx =
    advance_window_past id (push_history_ack nonce (push_history_skips skipped rx))

-- `while self.len > 0 && self.slot_0.id == self.window.base_id`. A round empties a slot, so two
-- rounds are enough.
unfoldable pub deliver_expected : ℕ → SegmentRx → Run (SegmentRx × List (List ℕ))
unfolding swap_slots push_history_ack advance_window_past
deliver_expected zero rx = done (rx, [])
deliver_expected (suc fuel) rx =
    if ltb 0 rx.len && rx.slot_0.id == rx.window.base_id
    then (do
      let slot_0 = rx.slot_0
      let rx' = advance_window_past slot_0.id (push_history_ack slot_0.nonce rx)
      rx'' ← (if rx'.len == 2 then swap_slots rx' else done rx')
      (rx3, delivered) ← deliver_expected fuel (record rx'' { len = rx''.len - 1 })
      done (rx3, slot_data slot_0 ∷ delivered))
    else done (rx, [])

-- `receive` returns `len` along with what it delivered.
abbrev pub after :
    List (List ℕ) → Run (SegmentRx × List (List ℕ)) → Run (SegmentRx × List (List ℕ) × ℕ)
after before m = do (rx, delivered) ← m; done (rx, before ++ delivered, rx.len)

-- the branch with two slots in use
unfoldable pub receive_third : SegmentRx → ℕ → Bool → List ℕ → Run (SegmentRx × List (List ℕ))
unfolding save_segment swap_slots_if_backward push_history_ack push_history_skips
    advance_window_past
receive_third rx new_id new_nonce new_data =
    if not (rx.slot_0.id == new_id) && not (rx.slot_1.id == new_id)
    then (let new_delta = wrapping_sub new_id rx.window.base_id in
        let slot_0_delta = wrapping_sub rx.slot_0.id rx.window.base_id in
        if ltb new_delta slot_0_delta
        then done (take_segment new_delta new_id new_nonce rx, new_data ∷ [])
        else (do
          let rx' = take_segment slot_0_delta rx.slot_0.id rx.slot_0.nonce rx
          slot ← save_segment rx'.slot_0 new_id new_nonce new_data
          rx'' ← swap_slots_if_backward (record rx' { slot_0 = slot })
          done (rx'', slot_data rx.slot_0 ∷ [])))
    else done (rx, [])

-- `receive` on an id in the window
unfoldable pub receive_inside : SegmentRx → ℕ → Bool → List ℕ → Run (SegmentRx × List (List ℕ) × ℕ)
unfolding save_segment swap_slots_if_backward push_history_ack advance_window_past receive_third
    deliver_expected
receive_inside rx new_id new_nonce new_data =
    if new_id == rx.window.base_id
    then after (new_data ∷ [])
        (deliver_expected 2 (advance_window_past new_id (push_history_ack new_nonce rx)))
    else if rx.len == 0
    then (do
      slot ← save_segment rx.slot_0 new_id new_nonce new_data
      done (record rx { slot_0 = slot; len = 1 }, [], 1))
    else if rx.len == 1
    then (if not (rx.slot_0.id == new_id)
        then (do
          slot ← save_segment rx.slot_1 new_id new_nonce new_data
          rx' ← swap_slots_if_backward (record rx { slot_1 = slot; len = 2 })
          done (rx', [], rx'.len))
        else done (rx, [], rx.len))
    else if rx.len == 2
    then (do
      (rx', delivered) ← receive_third rx new_id new_nonce new_data
      after delivered (deliver_expected 2 rx'))
    else panic

unfoldable pub receive : SegmentRx → ℕ → Bool → List ℕ → Run (SegmentRx × List (List ℕ) × ℕ)
unfolding receive_inside
receive rx new_id new_nonce new_data =
    if contains rx.window new_id
    then receive_inside rx new_id new_nonce new_data
    else done (rx, [], rx.len)

-- The three cases of `min_delta` in `sync`; the last one is `base_id` itself.
unfoldable pub min_delta : SegmentRx → ℕ
min_delta rx =
    if rx.len == 1
    then wrapping_sub rx.slot_0.id rx.window.base_id
    else if rx.len == 2
    then wrapping_sub rx.slot_1.id rx.window.base_id
    else rx.window.base_id

abbrev pub deliver_slot : Slot → SegmentRx → SegmentRx
deliver_slot slot rx = take_segment (wrapping_sub slot.id rx.window.base_id) slot.id slot.nonce rx

-- the outstanding segments that `sync` delivers
unfoldable pub flush_slots : SegmentRx → SegmentRx × List (List ℕ)
unfolding push_history_ack push_history_skips advance_window_past
flush_slots rx =
    let rx' = deliver_slot rx.slot_0 rx in
    if ltb 0 rx.len
    then (if rx.len == 2
        then (deliver_slot rx.slot_1 rx', slot_data rx.slot_0 ∷ slot_data rx.slot_1 ∷ [])
        else (rx', slot_data rx.slot_0 ∷ []))
    else (rx, [])

-- `window.base_id = next_segment_id`, with the ids before it skipped
unfoldable pub complete_sync : ℕ → SegmentRx → SegmentRx
unfolding push_history_skips
complete_sync next_segment_id rx =
    let rx' =
      push_history_skips (wrapping_sub next_segment_id rx.window.base_id) (record rx { len = 0 }) in
    record rx' { window = record { base_id = next_segment_id; size = rx'.window.size } }

unfoldable pub sync : SegmentRx → ℕ → SegmentRx × List (List ℕ)
unfolding min_delta flush_slots complete_sync
sync rx next_segment_id =
    let delta = wrapping_sub next_segment_id rx.window.base_id in
    if ltb (min_delta rx) delta && leb delta rx.window.size
    then (let (rx', delivered) = flush_slots rx in (complete_sync next_segment_id rx', delivered))
    else (rx, [])

-- `x ^= x >> k`, and the last bit at the end
unfoldable pub compute_checksum : ℕ → ℕ → Bool
compute_checksum rx_history nonce_history =
    let x = bit_and rx_history nonce_history in
    let x4 = bit_xor x (x / 2 ^ 4) in
    let x2 = bit_xor x4 (x4 / 2 ^ 2) in let x1 = bit_xor x2 (x2 / 2 ^ 1) in bit_and x1 1 == 1

unfoldable pub next_ack_info : SegmentRx → ℕ × Bool
unfolding compute_checksum
next_ack_info rx =
    let rx_history = bit_and rx.rx_history 31 % 256 in
    let nonce_history = rx.nonce_history % 256 in
    (rx_history, compute_checksum rx_history nonce_history)
