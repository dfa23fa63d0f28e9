-- ===== src/Endpoint/SegmentTx.antt =====
-- endpoint/segment_tx.rs: the sending side of a connection: the window of segments in flight, the
-- bytes in transit, the nonces sent, and the history of acks that detects a drop. `usize` is 64
-- bits, and arithmetic wraps as in a release build.
pub mod Transit
use redpine_rs.Common.{
  ℕ, zero, suc, ◌+◌, ◌-◌, ◌*◌, ◌/◌, ◌%◌, ◌^◌, min, Bool, true, false, ◌&&◌, not, none, some, List,
  ltb, leb, ◌==◌, if◌then◌else◌, Run, done, panic, assert, ◌>>=◌, ◌>>◌, length, get_elem?, drop,
  bit_and, bit_or, bit_xor, replicate, set, xor,
}
use redpine_rs.Common.Word.{wrapping_add, wrapping_sub, u32_max}

pub record SegmentTx : Type 0 where
  pub base_id : ℕ
  pub next_id : ℕ
  pub size : ℕ
  pub transit_buf : List ℕ
  pub transit_buf_mask : ℕ
  pub nonce_buf : List ℕ
  pub nonce_buf_mask : ℕ
  pub transit_total : ℕ
  pub ack_history : ℕ
  pub nonce_history : ℕ

-- `SegmentTx::new`
unfoldable pub segment_tx : ℕ → ℕ → Run SegmentTx
segment_tx base_id size = do
  assert (ltb 0 size && bit_and (size - 1) size == 0)
  assert (leb 64 size)
  done (record {
    base_id = base_id;
    next_id = base_id;
    size = size;
    transit_buf = replicate {A = ℕ} size 0;
    transit_buf_mask = size - 1;
    nonce_buf = replicate {A = ℕ} (size / 64) 0;
    nonce_buf_mask = size / 64 - 1;
    transit_total = 0;
    ack_history = u32_max;
    nonce_history = 0;
  })

-- An index out of range panics.
abbrev pub index : List ℕ → ℕ → Run ℕ
index xs i = elim (get_elem? xs i) [ none ↦ panic | some x ↦ done x ]

abbrev pub store : List ℕ → ℕ → ℕ → Run (List ℕ)
store xs i x = if ltb i (length xs) then done (set xs i x) else panic

-- The nonce is the random bit that the call draws.
unfoldable pub compute_next_nonce : Bool → SegmentTx → Run (SegmentTx × Bool)
compute_next_nonce nonce tx = do
  let i = bit_and (tx.next_id / 64) tx.nonce_buf_mask
  let bit_mask = 2 ^ (63 - tx.next_id % 64)
  bitfield ← index tx.nonce_buf i
  let bitfield' =
      if nonce then bit_or bitfield bit_mask else bit_and bitfield (2 ^ 64 - 1 - bit_mask)
  nonce_buf ← store tx.nonce_buf i bitfield'
  done (record tx { nonce_buf = nonce_buf }, nonce)

unfoldable pub can_send : SegmentTx → Bool
can_send tx = ltb (wrapping_sub tx.next_id tx.base_id) tx.size

unfoldable pub mark_sent : SegmentTx → ℕ → Run SegmentTx
unfolding can_send
mark_sent tx size = do
  assert (can_send tx)
  transit_buf ← store tx.transit_buf (bit_and tx.next_id tx.transit_buf_mask) size
  done (record tx {
    transit_buf = transit_buf;
    transit_total = (tx.transit_total + size) % 2 ^ 64;
    next_id = wrapping_add tx.next_id 1;
  })

-- The `bits` bits of the nonces before `base_id_new`, the last one lowest. The callers pass
-- 1 ≤ `bits` ≤ 32, so that the shifts are in range; a shift by 64 shifts by 0.
unfoldable pub nonce_bits : SegmentTx → ℕ → ℕ → Run ℕ
nonce_bits tx bits p1 = do
  let p0 = wrapping_sub p1 bits
  let p0_idx = bit_and (p0 / 64) tx.nonce_buf_mask
  let p1_idx = bit_and (p1 / 64) tx.nonce_buf_mask
  let p1_bits = p1 % 64
  (if p0 / 64 == p1 / 64
      then (do
        bitfield ← index tx.nonce_buf p1_idx
        done (bit_and (bitfield / 2 ^ ((64 - p1_bits) % 64)) (2 ^ bits - 1) % 2 ^ 32))
      else if p1_bits == 0
      then (do
        bitfield ← index tx.nonce_buf p0_idx
        done (bit_and bitfield (2 ^ bits - 1) % 2 ^ 32))
      else (do
        bitfield_a ← index tx.nonce_buf p0_idx
        bitfield_b ← index tx.nonce_buf p1_idx
        done (
            bit_or (bit_and (bitfield_b / 2 ^ (64 - p1_bits)) (2 ^ p1_bits - 1) % 2 ^ 32)
              (bit_and bitfield_a (2 ^ (bits - p1_bits) - 1) * 2 ^ p1_bits % 2 ^ 64 % 2 ^ 32))))

unfoldable pub update_nonce_history : SegmentTx → ℕ → ℕ → Run SegmentTx
unfolding nonce_bits
update_nonce_history tx ack_delta base_id_new = do
  let bits = min ack_delta 32
  new ← nonce_bits tx bits base_id_new
  let shifted = if bits == 32 then 0 else tx.nonce_history * 2 ^ bits % 2 ^ 32
  done (record tx { nonce_history = bit_or shifted new })

unfoldable pub expected_checksum : ℕ → ℕ → Bool
expected_checksum nonce_history rx_history =
    let x = bit_and nonce_history rx_history in
    let x16 = bit_xor x (x / 2 ^ 16) in
    let x8 = bit_xor x16 (x16 / 2 ^ 8) in
    let x4 = bit_xor x8 (x8 / 2 ^ 4) in
    let x2 = bit_xor x4 (x4 / 2 ^ 2) in let x1 = bit_xor x2 (x2 / 2 ^ 1) in bit_and x1 1 == 1

-- `leading_ones` and `count_ones` of a word of `bits` bits
unfoldable pub leading_ones : ℕ → ℕ → ℕ
leading_ones zero x = 0
leading_ones (suc bits) x =
    let rest = leading_ones bits x in if x / 2 ^ bits % 2 == 1 then 1 + rest else 0

unfoldable pub count_ones : ℕ → ℕ → ℕ
count_ones zero x = 0
count_ones (suc bits) x = x / 2 ^ bits % 2 + count_ones bits x

abbrev same : Bool → Bool → Bool
same a b = not (xor a b)

-- the ack history with the received bits shifted in
unfoldable pub shift_in : SegmentTx → ℕ → ℕ → Bool → ℕ
unfolding expected_checksum
shift_in tx ack_delta rx_history rx_checksum =
    let shifted = if ack_delta == 32 then 0 else tx.ack_history * 2 ^ (ack_delta % 32) % 2 ^ 32 in
    if same (expected_checksum tx.nonce_history rx_history) rx_checksum
    then bit_or shifted rx_history
    else shifted

-- whether the history shows a drop, once it is not all ones
unfoldable pub is_drop : ℕ → Run Bool
unfolding leading_ones count_ones
is_drop history =
    let ones = leading_ones 32 history in
    if history / 2 ^ 31 == 0 then done true else (do
      assert (ltb ones 32)
      done (leb 3 (count_ones 32 (history * 2 ^ (ones % 32) % 2 ^ 32 / 2 ^ (ones % 32)))))

unfoldable pub update_ack_history : SegmentTx → ℕ → ℕ → Bool → Run (SegmentTx × Bool)
unfolding shift_in is_drop leading_ones
update_ack_history tx ack_delta rx_history rx_checksum =
    let history = shift_in tx ack_delta rx_history rx_checksum in
    if ltb (leading_ones 32 tx.ack_history) ack_delta
    then done (record tx { ack_history = u32_max }, true)
    else if history == u32_max
    then done (record tx { ack_history = history }, false)
    else (do
      drop ← is_drop history
      done (record tx { ack_history = if drop then u32_max else history }, drop))

-- `for i in 0..ack_delta`: what is left of the bytes in transit
unfoldable pub leave_network : SegmentTx → ℕ → ℕ → ℕ → Run ℕ
leave_network tx i zero total = done total
leave_network tx i (suc rounds) total = do
  size ← index tx.transit_buf (bit_and (wrapping_add tx.base_id i) tx.transit_buf_mask)
  leave_network tx (i + 1) rounds ((total + 2 ^ 64 - size) % 2 ^ 64)

-- what `acknowledge` does when the window advances
unfoldable pub advance : SegmentTx → ℕ → ℕ → Run SegmentTx
unfolding leave_network update_nonce_history
advance tx ack_delta rx_base_id = do
  total ← leave_network tx 0 ack_delta tx.transit_total
  tx' ← update_nonce_history (record tx { transit_total = total }) ack_delta rx_base_id
  done (record tx' { base_id = rx_base_id })

unfoldable pub acknowledge : SegmentTx → ℕ → ℕ → Bool → Run (SegmentTx × Bool)
unfolding advance update_ack_history
acknowledge tx rx_base_id rx_history rx_checksum =
    let ack_delta = wrapping_sub rx_base_id tx.base_id in
    if leb ack_delta (wrapping_sub tx.next_id tx.base_id)
    then (do
      tx' ← (if ltb 0 ack_delta then advance tx ack_delta rx_base_id else done tx)
      update_ack_history tx' ack_delta rx_history rx_checksum)
    else done (tx, false)
