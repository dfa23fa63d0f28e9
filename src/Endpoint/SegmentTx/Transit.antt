-- ===== src/Endpoint/SegmentTx/Transit.antt =====
-- About the ring of segment sizes in endpoint/segment_tx.rs, and their total.
use redpine_rs.Common.{
  ℕ, zero, suc, ◌+◌, ◌-◌, ◌/◌, ◌%◌, ◌^◌, ◌≤◌, ◌<◌, ◌≡◌, refl, sym, ap, ◌∙◌, ◌≢◌, ◌⊎◌, inl, inr,
  List, [], ◌∷◌, arith, lt→ltb, done, length, bit_and, get_or, set, get_or-set_ne, get_or-set_self,
  length-set,
}
use redpine_rs.Common.Bits.{bit_and_mask}
use redpine_rs.Common.Word.{wrapping_add, wrapping_sub, IsU32, IsU64}
use native.Mathlib.Nat.{mod-mod_of_dvd, mod-lt, mul-le-mul_left, div-add-mod}
use Prim.Native.Nat.{◌∣◌}
use redpine_rs.Endpoint.SegmentTx.{SegmentTx, can_send, mark_sent, leave_network, index}

-- The place of the `i`th segment of the window in the ring, and the size there.
abbrev pub place : SegmentTx → ℕ → ℕ
place tx i = bit_and (wrapping_add tx.base_id i) tx.transit_buf_mask

abbrev pub size_at : SegmentTx → ℕ → ℕ
size_at tx i = get_or tx.transit_buf (place tx i) 0

-- The sizes of `n` segments from the `i`th on.
unfoldable pub transit : SegmentTx → ℕ → ℕ → ℕ
transit tx i zero = 0
transit tx i (suc n) = size_at tx i + transit tx (i + 1) n

abbrev pub in_flight : SegmentTx → ℕ
in_flight tx = wrapping_sub tx.next_id tx.base_id

-- `bits` is the number of bits of an index into the ring.
pub record IsRing (bits : ℕ) (tx : SegmentTx) : Type 0 where
  pub size_lem : tx.size ≡ 2 ^ bits
  pub divides : 2 ^ bits ∣ 2 ^ 32
  pub mask_lem : tx.transit_buf_mask + 1 ≡ 2 ^ bits
  pub buf_lem : length tx.transit_buf ≡ 2 ^ bits
  pub size_u32 : 2 ^ bits < 2 ^ 32
  pub base_u32 : IsU32 tx.base_id
  pub next_u32 : IsU32 tx.next_id

pub record IsCounted (bits : ℕ) (tx : SegmentTx) : Type 0 where
  pub ring : IsRing bits tx
  pub room : in_flight tx ≤ 2 ^ bits
  pub total : tx.transit_total ≡ transit tx 0 (in_flight tx)

place_lem :
    (bits : ℕ) (tx : SegmentTx) (i : ℕ) → IsRing bits tx → place tx i ≡ (tx.base_id + i) % 2 ^ bits
place_lem bits tx i r =
    bit_and_mask bits tx.transit_buf_mask (wrapping_add tx.base_id i) r.mask_lem
    ∙ mod-mod_of_dvd (2 ^ bits) (tx.base_id + i) r.divides

-- Two numbers less than `n` apart have different remainders.
compare_le : (x y : ℕ) → (x ≤ y) ⊎ (y + 1 ≤ x)
compare_le x y = ground arith

mod-apart : (n a b : ℕ) → a < b → b < a + n → a % n ≢ b % n
mod-apart n a b lt near e =
    let qa = a / n in
    let qb = b / n in
    let da = div-add-mod a n in
    let db = div-add-mod b n in
    elim (compare_le qb qa) [
      | inl le ↦ let m = mul-le-mul_left {m = qb} {n = qa} n le in omega arith
      | inr more ↦ let m = mul-le-mul_left {m = qa + 1} {n = qb} n more in omega arith
    ]

index-get_or : (xs : List ℕ) (i : ℕ) → i < length xs → index xs i ≡ done (get_or xs i 0)
index-get_or [] i h = absurd (omega arith)
index-get_or (x ∷ xs) zero h = refl
index-get_or (x ∷ xs) (suc i) h = index-get_or xs i (omega arith)

place-lt : (bits : ℕ) (tx : SegmentTx) (i : ℕ) → IsRing bits tx → place tx i < length tx.transit_buf
place-lt bits tx i r =
    let positive : 0 < 2 ^ bits = omega (arith, r.mask_lem) in
    omega (arith, place_lem bits tx i r, mod-lt (tx.base_id + i) positive, r.buf_lem)

leave_network-exact :
    (bits : ℕ) (tx : SegmentTx) (i rounds total : ℕ)
    → IsRing bits tx
    → transit tx i rounds ≤ total
    → IsU64 total
    → leave_network tx i rounds total ≡ done (total - transit tx i rounds)
unfolding leave_network transit
leave_network-exact bits tx i zero total r h u = ap done (omega arith)
leave_network-exact bits tx i (suc rounds) total r h u =
    let e : (total + 2 ^ 64 - size_at tx i) % 2 ^ 64 ≡ total - size_at tx i = omega arith in
    rw (index-get_or tx.transit_buf (place tx i) (place-lt bits tx i r)) (
      rw (e) (
        leave_network-exact bits tx (i + 1) rounds (total - size_at tx i) r (omega arith)
          (omega arith)
        ∙ ap done (omega arith)))

transit-split :
    (tx : SegmentTx) (i d n : ℕ) → transit tx i (d + n) ≡ transit tx i d + transit tx (i + d) n
unfolding transit
transit-split tx i zero n =
    let e : 0 + n ≡ n = omega arith in let e' : i + 0 ≡ i = omega arith in rw (e, e') (omega arith)
transit-split tx i (suc d) n =
    let e : suc d + n ≡ suc (d + n) = omega arith in
    let e' : i + suc d ≡ i + 1 + d = omega arith in
    rw (e, e') (omega (arith, transit-split tx (i + 1) d n))

-- Two states whose sizes agree, one of them seen from `d` further on.
transit-shift :
    (tx tx' : SegmentTx) (d i n : ℕ)
    → ((j : ℕ) → j < i + n → size_at tx' j ≡ size_at tx (d + j))
    → transit tx' i n ≡ transit tx (d + i) n
unfolding transit
transit-shift tx tx' d i zero agree = refl
transit-shift tx tx' d i (suc n) agree =
    let e : d + (i + 1) ≡ d + i + 1 = omega arith in
    let here = agree i (omega arith) in
    let later = transit-shift tx tx' d (i + 1) n (λ j h. agree j (omega arith)) in
    rw (here, later, e) refl

-- The window moved to `id`.
abbrev pub moved : SegmentTx → ℕ → SegmentTx
moved tx id = record tx { base_id = id }

moved-size_at :
    (tx : SegmentTx) (id j : ℕ)
    → IsU32 tx.base_id
    → IsU32 id
    → size_at (moved tx id) j ≡ size_at tx (wrapping_sub id tx.base_id + j)
moved-size_at tx id j hb hi =
    let e : wrapping_add id j ≡ wrapping_add tx.base_id (wrapping_sub id tx.base_id + j) =
      omega arith in
    ap (λ x. get_or tx.transit_buf (bit_and x tx.transit_buf_mask) 0) e

-- With a total that is the sum over the window, and a new base id inside the window: the loop of
-- `acknowledge` returns, and what is left of the total is the sum over the window that starts at
-- the new base.
pub leave_network-window :
    (bits : ℕ) (tx : SegmentTx) (id : ℕ)
    → IsCounted bits tx
    → IsU64 tx.transit_total
    → IsU32 id
    → wrapping_sub id tx.base_id ≤ in_flight tx
    → leave_network tx 0 (wrapping_sub id tx.base_id) tx.transit_total
      ≡ done (transit (moved tx id) 0 (in_flight (moved tx id)))
leave_network-window bits tx id c u hi inside =
    let r = c.ring in
    let d = wrapping_sub id tx.base_id in
    let n = in_flight (moved tx id) in
    let hb = r.base_u32 in
    let hn = r.next_u32 in
    let whole : d + n ≡ in_flight tx = omega arith in
    let parts = transit-split tx 0 d n in
    let total : tx.transit_total ≡ transit tx 0 (d + n) = c.total ∙ ap (transit tx 0) (sym whole) in
    let rest = transit-shift tx (moved tx id) d 0 n (λ j h. moved-size_at tx id j hb hi) in
    let same : transit tx (0 + d) n ≡ transit tx (d + 0) n =
      ap (λ i. transit tx i n) (omega arith) in
    leave_network-exact bits tx 0 d tx.transit_total r (omega (arith, total, parts)) u
    ∙ ap done (omega (arith, total, parts, rest, same))

sent-size_at :
    (bits : ℕ) (tx : SegmentTx) (size j : ℕ)
    → IsRing bits tx
    → in_flight tx < 2 ^ bits
    → j < in_flight tx
    → get_or (set tx.transit_buf (place tx (in_flight tx)) size) (place tx j) 0 ≡ size_at tx j
sent-size_at bits tx size j r room h = get_or-set_ne tx.transit_buf size 0 (λ e.
    mod-apart (2 ^ bits) (tx.base_id + j) (tx.base_id + in_flight tx) (omega arith) (omega arith)
      (sym (place_lem bits tx j r) ∙ sym e ∙ place_lem bits tx (in_flight tx) r))

-- The state after a segment of `size` bytes went out.
abbrev pub sent : SegmentTx → ℕ → SegmentTx
sent tx size = record tx {
  transit_buf = set tx.transit_buf (place tx (in_flight tx)) size;
  transit_total = tx.transit_total + size;
  next_id = wrapping_add tx.next_id 1;
}

transit-one : (tx : SegmentTx) (i : ℕ) → transit tx i 1 ≡ size_at tx i
unfolding transit
transit-one tx i = omega arith

sent-IsCounted :
    (bits : ℕ) (tx : SegmentTx) (size : ℕ)
    → IsCounted bits tx
    → in_flight tx < 2 ^ bits
    → IsCounted bits (sent tx size)
sent-IsCounted bits tx size c room =
    let r = c.ring in
    let n = in_flight tx in
    let hb = r.base_u32 in
    let hn = r.next_u32 in
    let hs = r.size_u32 in
    let longer : in_flight (sent tx size) ≡ n + 1 = omega arith in
    let parts = transit-split (sent tx size) 0 n 1 in
    let before =
      transit-shift tx (sent tx size) 0 0 n
        (λ j h. sent-size_at bits tx size j r room (omega arith) ∙ ap (size_at tx) (omega arith)) in
    let last : get_or (set tx.transit_buf (place tx n) size) (place tx n) 0 ≡ size =
      get_or-set_self tx.transit_buf (place tx n) size 0 (place-lt bits tx n r) in
    let at_zero : 0 + n ≡ n = omega arith in
    let one = ap (λ i. transit (sent tx size) i 1) at_zero ∙ transit-one (sent tx size) n ∙ last in
    let sum : transit (sent tx size) 0 (n + 1) ≡ tx.transit_total + size =
      omega (arith, parts, before, one, c.total) in
    record {
      ring = record {
        size_lem = r.size_lem;
        divides = r.divides;
        mask_lem = r.mask_lem;
        buf_lem = length-set tx.transit_buf (place tx n) size ∙ r.buf_lem;
        size_u32 = hs;
        base_u32 = hb;
        next_u32 = omega arith;
      };
      room = omega arith;
      total = sym (ap (transit (sent tx size) 0) longer ∙ sum);
    }

-- While the window has room and the total stays a `usize`: where the total is the sum over the
-- window, `mark_sent` returns, adds the size exactly, and the total is the sum over the window
-- again.
pub mark_sent-IsCounted :
    (bits : ℕ) (tx : SegmentTx) (size : ℕ)
    → IsCounted bits tx
    → in_flight tx < 2 ^ bits
    → IsU64 (tx.transit_total + size)
    → (mark_sent tx size ≡ done (sent tx size)) × IsCounted bits (sent tx size)
unfolding mark_sent can_send
mark_sent-IsCounted bits tx size c room small =
    let r = c.ring in
    let hb = r.base_u32 in
    let hn = r.next_u32 in
    let n = in_flight tx in
    let next : wrapping_add tx.base_id n ≡ tx.next_id = omega arith in
    let same_place = ap (λ x. bit_and x tx.transit_buf_mask) next in
    let free = lt→ltb n tx.size (omega (arith, r.size_lem)) in
    let inside = lt→ltb (place tx n) (length tx.transit_buf) (place-lt bits tx n r) in
    let sum : (tx.transit_total + size) % 2 ^ 64 ≡ tx.transit_total + size = omega arith in
    (rw (free, sum) (rw (← same_place) (rw inside refl)), sent-IsCounted bits tx size c room)
