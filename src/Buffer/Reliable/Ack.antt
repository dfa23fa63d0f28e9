-- ===== src/Buffer/Reliable/Ack.antt =====
-- About the window and the ids of the fragments in flight in buffer/reliable.rs.
use redpine_rs.Common.{
  ◌≢◌, ap₂, lt→ltb, ◌≢◌, le→ltb_false, sym, length-drop, ◌==◌, ◌<◌, ◌<◌, ℕ, zero, suc, ◌+◌, ◌≤◌,
  ◌≡◌, refl, ap, ◌∙◌, inl, inr, Option, List, [], ◌∷◌, arith, Bool-cases, Option-cases, get_elem?,
  drop,
}
use redpine_rs.Common.Word.{IsU32, wrapping_sub}
use redpine_rs.Buffer.{length, false, true, Bool, contains, FragmentRc, Window}
use redpine_rs.Buffer.Reliable.{
  Run, done, peek_sendable, pop_sendable, TxBuffer, acknowledge, duplicate_ack, resend_all,
}
use redpine_rs.Buffer.Reliable.Invariant.{
  IsValid, acknowledged, delta, IsAckable, IsAcked, duplicate, fresh, refused, acknowledge-IsAcked,
}

get_elem?-drop {ℓ} :
    {A : Type ℓ} (n i : ℕ) (xs : List A) → get_elem? (drop n xs) i ≡ get_elem? xs (n + i)
get_elem?-drop zero i xs = ap (get_elem? xs) (omega arith)
get_elem?-drop (suc n) i [] = refl
get_elem?-drop (suc n) i (x ∷ xs) =
    get_elem?-drop n i xs
    ∙ ap (get_elem? (x ∷ xs)) (let e : suc (n + i) ≡ suc n + i = omega arith in e)

-- The fragment that goes out under an id.
abbrev pub fragment_at : TxBuffer → ℕ → Option FragmentRc
fragment_at tx id = get_elem? tx.fragments (delta tx id)

acknowledged-fragment_at :
    (tx : TxBuffer) (new_base_id id : ℕ)
    → IsValid tx
    → IsU32 new_base_id
    → IsU32 id
    → delta tx new_base_id ≤ delta tx id
    → fragment_at (acknowledged tx new_base_id) id ≡ fragment_at tx id
acknowledged-fragment_at tx new_base_id id v hb hi h =
    let b = v.base_u32 in
    let e : delta tx new_base_id + delta (acknowledged tx new_base_id) id ≡ delta tx id =
      omega arith in
    get_elem?-drop (delta tx new_base_id) _ tx.fragments ∙ ap (get_elem? tx.fragments) e

-- What an ack of `id` leaves of a queue, and whether it was accepted.
pub record IsWindowed (tx : TxBuffer) (id : ℕ) (tx' : TxBuffer) (ok : Bool) : Type 0 where
  pub accepts : IsAckable tx id → ok ≡ true
  pub refuses : delta tx tx.max_ack_id < delta tx id → (ok ≡ false) × (tx' ≡ tx)
  pub base : IsAckable tx id → tx'.send_window.base_id ≡ id
  pub size : tx'.send_window.size ≡ tx.send_window.size
  pub max : tx'.max_ack_id ≡ tx.max_ack_id
  pub removed : IsAckable tx id → delta tx id + length tx'.fragments ≡ length tx.fragments
  pub names :
      IsAckable tx id
      → (other : ℕ) → IsU32 other
      → delta tx id ≤ delta tx other
      → fragment_at tx' other ≡ fragment_at tx other
  pub stays :
      id ≢ tx.send_window.base_id
      → delta tx id ≤ delta tx tx.next_send_id
      → tx'.next_send_id ≡ tx.next_send_id
  pub skips : IsAckable tx id → delta tx tx.next_send_id < delta tx id → tx'.next_send_id ≡ id
  pub forgets : IsAckable tx id → id ≢ tx.send_window.base_id → tx'.duplicate_ack_count ≡ 0

refused-IsWindowed :
    (tx : TxBuffer) (id : ℕ) → delta tx tx.max_ack_id < delta tx id → IsWindowed tx id tx false
refused-IsWindowed tx id h = record {
  accepts = λ a. absurd (omega arith);
  refuses = λ _. (refl, refl);
  base = λ a. absurd (omega arith);
  size = refl;
  max = refl;
  removed = λ a. absurd (omega arith);
  names = λ a other u le. refl;
  stays = λ ne le. refl;
  skips = λ a lt. absurd (omega arith);
  forgets = λ a ne. absurd (omega arith);
}

acknowledged-IsWindowed :
    (tx : TxBuffer) (id : ℕ)
    → IsU32 id
    → IsAckable tx id
    → IsValid tx
    → IsWindowed tx id (acknowledged tx id) true
acknowledged-IsWindowed tx id h a v = record {
  accepts = λ _. refl;
  refuses = λ lt. absurd (omega arith);
  base = λ _. refl;
  size = refl;
  max = refl;
  removed = λ _. omega (arith, v.max_le_length, length-drop (delta tx id) tx.fragments);
  names = λ _ other u le. acknowledged-fragment_at tx id other v h u le;
  stays = λ ne le. rw (le→ltb_false _ _ le) refl;
  skips = λ _ lt. rw (lt→ltb _ _ lt) refl;
  forgets = λ _ ne. refl;
}

duplicate_ack-fields :
    (tx : TxBuffer)
    → ((duplicate_ack tx).send_window ≡ tx.send_window)
      × ((duplicate_ack tx).fragments ≡ tx.fragments)
      × ((duplicate_ack tx).max_ack_id ≡ tx.max_ack_id)
unfolding duplicate_ack resend_all
duplicate_ack-fields tx = elim (Bool-cases (tx.duplicate_ack_count + 1 == 3)) [
  | inl third ↦ rw third (refl, refl, refl)
  | inr early ↦ rw early (refl, refl, refl)
]

duplicate-IsWindowed :
    (tx : TxBuffer) (id : ℕ)
    → id ≡ tx.send_window.base_id
    → IsValid tx
    → IsWindowed tx id (duplicate_ack tx) true
duplicate-IsWindowed tx id e v =
    let (window, fragments, max_id) = duplicate_ack-fields tx in
    let b = v.base_u32 in
    record {
      accepts = λ _. refl;
      refuses = λ lt. absurd (omega arith);
      base = λ _. ap (λ (w : Window). w.base_id) window ∙ sym e;
      size = ap (λ (w : Window). w.size) window;
      max = max_id;
      removed = λ _. omega (arith, ap length fragments);
      names = λ _ other u le.
          ap₂ (λ (w : Window) fs. get_elem? fs (wrapping_sub other w.base_id)) window fragments;
      stays = λ ne le. absurd (ne e);
      skips = λ _ lt. absurd (omega arith);
      forgets = λ _ ne. absurd (ne e);
    }

-- On a well formed queue an ack of any id of 32 bits returns. It is accepted exactly where the id
-- does not lie past `max_ack_id`, and a refused one leaves the queue alone. An accepted one makes
-- the id the base of a window of the same size, takes as many fragments off the queue as the id lies
-- past the old base, and every id of 32 bits from it on names the fragment it named before.
-- `max_ack_id` stays. For an accepted id other than the base, the next id to send stays unless it
-- would be before the window, when it becomes the base, and the count of duplicates is 0.
pub acknowledge-IsWindowed :
    (tx : TxBuffer) (id : ℕ)
    → IsU32 id
    → IsValid tx
    → (tx' : TxBuffer) × (ok : Bool) × (acknowledge tx id ≡ done (tx', ok))
      × IsWindowed tx id tx' ok
acknowledge-IsWindowed tx id h v = by_case (acknowledge tx id) (acknowledge-IsAcked tx id v)
  where
    by_case :
        (r : Run (TxBuffer × Bool))
        → IsAcked tx id r
        → (tx' : TxBuffer) × (ok : Bool) × (r ≡ done (tx', ok)) × IsWindowed tx id tx' ok
    by_case _ (duplicate e) = (_, _, refl, duplicate-IsWindowed tx id e v)
    by_case _ (fresh ne a) = (_, _, refl, acknowledged-IsWindowed tx id h a v)
    by_case _ (refused lt) = (_, _, refl, refused-IsWindowed tx id lt)

-- `peek_sendable` gives what `pop_sendable` hands out, on every queue.
pub peek_sendable-pop_sendable : (tx : TxBuffer) → peek_sendable tx ≡ (pop_sendable tx).1
unfolding peek_sendable pop_sendable contains
peek_sendable-pop_sendable tx = elim (Bool-cases (contains tx.send_window tx.next_send_id)) [
  | inr outside ↦ rw outside refl
  | inl inside ↦ elim (Option-cases (fragment_at tx tx.next_send_id)) [
    | inl missing ↦ rw (inside, missing) refl
    | inr (f, found) ↦ rw (inside, found) refl
  ]
]
