-- ===== src/Buffer/Reliable/Invariant.antt =====
-- When the send queue of buffer/reliable.rs is well formed, and what its operations do to that.
use redpine_rs.Common.{
  le→leb, ◌≢◌, if◌then◌else◌, ==→eq, ◌≢◌, [], ◌∷◌, zero, suc, ℕ, ◌≤◌, ◌<◌, ◌≡◌, refl, arith, Bool,
  true, false, some, List, length, length-append, length-drop, get_elem?, Option-cases, inl, inr,
  ltb, leb, ◌==◌, Bool-cases, ltb→lt, drop, Run, done,
}
use redpine_rs.Common.Word.{IsU32, wrapping_sub}
use redpine_rs.Buffer.{suc, ◌∷◌, contains, split}
use redpine_rs.Buffer.Reliable.{
  TxBuffer, tx_buffer, push, advance_ids, pop_sendable, resend_all, duplicate_ack, acknowledge,
}

-- How far an id lies past the base of the window.
abbrev pub delta : TxBuffer → ℕ → ℕ
delta tx id = wrapping_sub id tx.send_window.base_id

pub record IsValid (tx : TxBuffer) : Type 0 where
  pub base_u32 : IsU32 tx.send_window.base_id
  pub next_u32 : IsU32 tx.next_send_id
  pub max_u32 : IsU32 tx.max_ack_id
  pub size_u32 : IsU32 tx.send_window.size
  pub next_le_max : delta tx tx.next_send_id ≤ delta tx tx.max_ack_id
  pub max_le_length : delta tx tx.max_ack_id ≤ length tx.fragments
  pub max_le_size : delta tx tx.max_ack_id ≤ tx.send_window.size
  pub few_duplicates : tx.duplicate_ack_count ≤ 2

pub tx_buffer-IsValid :
    (base_id fragment_size window_size : ℕ) {tx : TxBuffer}
    → IsU32 base_id
    → IsU32 window_size
    → tx_buffer base_id fragment_size window_size ≡ done tx
    → IsValid tx
unfolding tx_buffer
tx_buffer-IsValid base_id fragment_size window_size hb hw e = ground arith

pub push-IsValid : (tx : TxBuffer) (packet : List ℕ) → IsValid tx → IsValid (push tx packet)
unfolding push
push-IsValid tx packet v =
    ground (arith, length-append tx.fragments (split tx.fragment_size packet))

get_elem?-lt {ℓ} :
    {A : Type ℓ} (xs : List A) (i : ℕ) {x : A} → get_elem? xs i ≡ some x → i < length xs
get_elem?-lt [] i e = cc
get_elem?-lt (y ∷ ys) zero e = omega arith
get_elem?-lt (y ∷ ys) (suc i) e = omega (arith, get_elem?-lt ys i e)

advance_ids-IsValid :
    (tx : TxBuffer)
    → delta tx tx.next_send_id < tx.send_window.size
    → delta tx tx.next_send_id < length tx.fragments
    → IsValid tx
    → IsValid (advance_ids tx)
unfolding advance_ids
advance_ids-IsValid tx h k v = ground arith

-- On a well formed queue, `pop_sendable` leaves a well formed queue.
pub pop_sendable-IsValid : (tx : TxBuffer) → IsValid tx → IsValid (pop_sendable tx).0
unfolding pop_sendable contains
pop_sendable-IsValid tx v = elim (Bool-cases (contains tx.send_window tx.next_send_id)) [
  | inl inside ↦
      rw inside (elim (Option-cases (get_elem? tx.fragments (delta tx tx.next_send_id))) [
        | inl missing ↦ rw missing v
        | inr (f, found) ↦
            rw found
              (advance_ids-IsValid tx (ltb→lt _ _ inside) (get_elem?-lt tx.fragments _ found) v)
      ])
  | inr outside ↦ rw outside v
]

pub resend_all-IsValid : (tx : TxBuffer) → IsValid tx → IsValid (resend_all tx)
unfolding resend_all
resend_all-IsValid tx v = ground arith

pub duplicate_ack-IsValid : (tx : TxBuffer) → IsValid tx → IsValid (duplicate_ack tx)
unfolding duplicate_ack
duplicate_ack-IsValid tx v = ground arith

-- The ids that an ack may name: from the base to the id after the last one handed out.
abbrev pub IsAckable : TxBuffer → ℕ → Type 0
IsAckable tx id = delta tx id ≤ delta tx tx.max_ack_id

-- What `acknowledge` leaves after an ack of new fragments.
abbrev pub acknowledged : TxBuffer → ℕ → TxBuffer
acknowledged tx id = record tx {
  fragments = drop (delta tx id) tx.fragments;
  send_window = record { base_id = id; size = tx.send_window.size };
  next_send_id = if ltb (delta tx tx.next_send_id) (delta tx id) then id else tx.next_send_id;
  duplicate_ack_count = 0;
}

pub acknowledged-IsValid :
    (tx : TxBuffer) (id : ℕ)
    → IsU32 id
    → IsAckable tx id
    → IsValid tx
    → IsValid (acknowledged tx id)
acknowledged-IsValid tx id h a v = ground (arith, length-drop (delta tx id) tx.fragments)

-- The three branches of `acknowledge` on a well formed queue: it returns in each, and never drains
-- past the end of the queue.
pub data IsAcked (tx : TxBuffer) (id : ℕ) : Run (TxBuffer × Bool) → Type 0 where
  duplicate : id ≡ tx.send_window.base_id → IsAcked tx id (done (duplicate_ack tx, true))
  fresh :
      id ≢ tx.send_window.base_id
      → IsAckable tx id
      → IsAcked tx id (done (acknowledged tx id, true))
  refused : delta tx tx.max_ack_id < delta tx id → IsAcked tx id (done (tx, false))

-- On a well formed queue `acknowledge` returns, by one of the three branches.
pub acknowledge-IsAcked : (tx : TxBuffer) (id : ℕ) → IsValid tx → IsAcked tx id (acknowledge tx id)
unfolding acknowledge
acknowledge-IsAcked tx id v = elim (Bool-cases (id == tx.send_window.base_id)) [
  | inl same ↦ rw same (duplicate (==→eq _ _ same))
  | inr other ↦ elim (Bool-cases (leb (delta tx id) (delta tx tx.max_ack_id))) [
    | inl within ↦
        let ackable : IsAckable tx id = ground arith in
        rw (other, within, le→leb (delta tx id) (length tx.fragments) (omega arith))
          (fresh (ground arith) ackable)
    | inr beyond ↦ rw (other, beyond) (refused (ground arith))
  ]
]

-- On a well formed queue, `acknowledge` returns for every id of 32 bits, and leaves a well formed
-- queue.
pub acknowledge-IsValid :
    (tx : TxBuffer) (id : ℕ)
    → IsU32 id
    → IsValid tx
    → (tx' : TxBuffer) × (ok : Bool) × (acknowledge tx id ≡ done (tx', ok)) × IsValid tx'
acknowledge-IsValid tx id h v = by_case (acknowledge tx id) (acknowledge-IsAcked tx id v)
  where
    by_case :
        (r : Run (TxBuffer × Bool))
        → IsAcked tx id r
        → (tx' : TxBuffer) × (ok : Bool) × (r ≡ done (tx', ok)) × IsValid tx'
    by_case _ (duplicate e) = (duplicate_ack tx, true, refl, duplicate_ack-IsValid tx v)
    by_case _ (fresh ne a) = (acknowledged tx id, true, refl, acknowledged-IsValid tx id h a v)
    by_case _ (refused lt) = (tx, false, refl, v)
