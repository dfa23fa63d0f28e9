-- ===== src/Buffer/Reliable/Resend.antt =====
-- About acks of buffer/reliable.rs that come again and again for the same base id.
use redpine_rs.Common.{
  lt→ltb, ◌-◌, ◌⊎◌, ◌⊎◌, ap₂, subst, ==-self, le→leb, sym, ℕ, zero, suc, ◌+◌, ◌%◌, ◌≤◌, ◌<◌, ◌≡◌,
  refl, ap, ◌∙◌, inl, inr, some, arith, leb, ◌==◌, get_elem?, if◌then◌else◌, Run, done, ◌>>=◌,
}
use redpine_rs.Buffer.{false, true, contains, FragmentRc}
use redpine_rs.Buffer.Reliable.{TxBuffer, acknowledge, peek_sendable, duplicate_ack, resend_all}

-- The same ack `n` times over.
abbrev pub acknowledge_times : ℕ → ℕ → TxBuffer → Run TxBuffer
acknowledge_times zero id tx = done tx
acknowledge_times (suc n) id tx = acknowledge tx id >>= λ r. acknowledge_times n id r.0

-- A queue after `n` acks of its base id: every third of them starts the sending again at the base,
-- and the fragment that goes out next is then the first that is not acknowledged.
pub record IsRepeated (n : ℕ) (tx tx' : TxBuffer) : Type 0 where
  pub fragments : tx'.fragments ≡ tx.fragments
  pub send_window : tx'.send_window ≡ tx.send_window
  pub max_ack_id : tx'.max_ack_id ≡ tx.max_ack_id
  pub fragment_size : tx'.fragment_size ≡ tx.fragment_size
  pub count : tx'.duplicate_ack_count ≡ (tx.duplicate_ack_count + n) % 3
  pub early : tx.duplicate_ack_count + n < 3 → tx'.next_send_id ≡ tx.next_send_id
  pub again : 3 ≤ tx.duplicate_ack_count + n → tx'.next_send_id ≡ tx.send_window.base_id
  pub first :
      3 ≤ tx.duplicate_ack_count + n
      → 0 < tx.send_window.size
      → (fragment : FragmentRc) → get_elem? tx.fragments 0 ≡ some fragment
      → peek_sendable tx' ≡ some (tx.send_window.base_id, fragment)

abbrev sending : TxBuffer → ℕ → ℕ → TxBuffer
sending tx count next = record tx { duplicate_ack_count = count; next_send_id = next }

abbrev next_after : TxBuffer → ℕ → ℕ
next_after tx count = if leb 3 count then tx.send_window.base_id else tx.next_send_id

abbrev repeated : ℕ → TxBuffer → TxBuffer
repeated n tx =
    let count = tx.duplicate_ack_count + n in sending tx (count % 3) (next_after tx count)

repeated-zero : (tx : TxBuffer) → tx.duplicate_ack_count ≤ 2 → repeated 0 tx ≡ tx
repeated-zero tx h =
    let count : (tx.duplicate_ack_count + 0) % 3 ≡ tx.duplicate_ack_count = omega arith in
    let next : next_after tx (tx.duplicate_ack_count + 0) ≡ tx.next_send_id = ground arith in
    ap₂ (sending tx) count next

duplicate_ack-third :
    (tx : TxBuffer)
    → tx.duplicate_ack_count ≡ 2
    → duplicate_ack tx ≡ sending tx 0 tx.send_window.base_id
unfolding duplicate_ack resend_all
duplicate_ack-third tx e =
    let third : (tx.duplicate_ack_count + 1 == 3) ≡ true = ground arith in rw third refl

duplicate_ack-early :
    (tx : TxBuffer)
    → tx.duplicate_ack_count < 2
    → duplicate_ack tx ≡ sending tx (tx.duplicate_ack_count + 1) tx.next_send_id
unfolding duplicate_ack
duplicate_ack-early tx h =
    let early : (tx.duplicate_ack_count + 1 == 3) ≡ false = ground arith in rw early refl

third_or_early : (n : ℕ) → n ≤ 2 → (n ≡ 2) ⊎ (n < 2)
third_or_early n h = ground arith

repeated-suc :
    (n : ℕ) (tx : TxBuffer)
    → tx.duplicate_ack_count ≤ 2
    → repeated n (duplicate_ack tx) ≡ repeated (suc n) tx
repeated-suc n tx h = elim (third_or_early tx.duplicate_ack_count h) [
  | inl e ↦ rw (duplicate_ack-third tx e) (
      ap₂ (sending tx)
        (let c : (0 + n) % 3 ≡ (tx.duplicate_ack_count + suc n) % 3 = omega arith in c)
        (let b : (if leb 3 (0 + n) then tx.send_window.base_id else tx.send_window.base_id)
              ≡ next_after tx (tx.duplicate_ack_count + suc n) =
            ground arith in
          b))
  | inr lt ↦ rw (duplicate_ack-early tx lt) (
      let e : tx.duplicate_ack_count + 1 + n ≡ tx.duplicate_ack_count + suc n = omega arith in
      rw e refl)
]

acknowledge-duplicate :
    (tx : TxBuffer) → acknowledge tx tx.send_window.base_id ≡ done (duplicate_ack tx, true)
unfolding acknowledge
acknowledge-duplicate tx =
    let same : (tx.send_window.base_id == tx.send_window.base_id) ≡ true = ==-self _ in rw same refl

duplicate_ack-few :
    (tx : TxBuffer)
    → tx.duplicate_ack_count ≤ 2
    → ((duplicate_ack tx).send_window ≡ tx.send_window)
      × ((duplicate_ack tx).duplicate_ack_count ≤ 2)
duplicate_ack-few tx h = elim (third_or_early tx.duplicate_ack_count h) [
  | inl e ↦ rw (duplicate_ack-third tx e) (refl, omega arith)
  | inr lt ↦ rw (duplicate_ack-early tx lt) (refl, omega arith)
]

acknowledge_times-repeated :
    (n : ℕ) (tx : TxBuffer)
    → tx.duplicate_ack_count ≤ 2
    → acknowledge_times n tx.send_window.base_id tx ≡ done (repeated n tx)
acknowledge_times-repeated zero tx h = ap done (sym (repeated-zero tx h))
acknowledge_times-repeated (suc n) tx h =
    let (window, few) = duplicate_ack-few tx h in
    rw (acknowledge-duplicate tx) (
      subst (λ w. acknowledge_times n w.base_id (duplicate_ack tx) ≡ done (repeated (suc n) tx))
        window
        (acknowledge_times-repeated n (duplicate_ack tx) few ∙ ap done (repeated-suc n tx h)))

peek_sendable-first :
    (tx : TxBuffer) (n : ℕ) (fragment : FragmentRc)
    → leb 3 (tx.duplicate_ack_count + n) ≡ true
    → 0 < tx.send_window.size
    → get_elem? tx.fragments 0 ≡ some fragment
    → peek_sendable (repeated n tx) ≡ some (tx.send_window.base_id, fragment)
unfolding peek_sendable contains
peek_sendable-first tx n fragment often room found =
    let base_id = tx.send_window.base_id in
    let here : (base_id + 4294967296 - base_id) % 4294967296 ≡ 0 = omega arith in
    let next : next_after tx (tx.duplicate_ack_count + n) ≡ base_id = rw often refl in
    rw (often, here, lt→ltb _ _ room, found) (ap (λ id. some (id, fragment)) next)

-- For a queue with at most two duplicates counted, `n` acks of the base id in a row return: the
-- fragments and the window stay, the count of duplicates is the sum modulo 3, the next id to send
-- stays while the sum is below 3, and is the base from then on, so that the first fragment of the
-- queue is what goes out next under it, where the window has room and there is one.
pub acknowledge_times-IsRepeated :
    (n : ℕ) (tx : TxBuffer)
    → tx.duplicate_ack_count ≤ 2
    → (tx' : TxBuffer) × (acknowledge_times n tx.send_window.base_id tx ≡ done tx')
      × IsRepeated n tx tx'
acknowledge_times-IsRepeated n tx h = (
  repeated n tx,
  acknowledge_times-repeated n tx h,
  record {
    fragments = refl;
    send_window = refl;
    max_ack_id = refl;
    fragment_size = refl;
    count = refl;
    early = λ lt. ground arith;
    again = λ le. rw (le→leb _ _ le) refl;
    first = λ le room fragment found. peek_sendable-first tx _ fragment (le→leb _ _ le) room found;
  },
)
