-- ===== src/Buffer/Unreliable/Queue.antt =====
-- About the expiry of fragments in the send queue of buffer/unreliable.rs.
use redpine_rs.Common.{
  ℕ, ◌≤◌, ◌<◌, ◌≡◌, refl, ap, inl, inr, List, [], ◌∷◌, ◌++◌, arith, leb, Bool-cases, All,
}
use redpine_rs.Buffer.Unreliable.{TxBuffer, TxEntry, drop_expired, pop_expired}

abbrev pub IsFresh : ℕ → List TxEntry → Type 0
IsFresh now_ms [] = Unit
IsFresh now_ms (entry ∷ rest) = now_ms < entry.expire_time_ms

abbrev pub IsExpired : ℕ → TxEntry → Type 0
IsExpired now_ms entry = entry.expire_time_ms ≤ now_ms

drop_expired-IsFresh :
    (now_ms : ℕ) (entries : List TxEntry)
    → (dropped : List TxEntry) × (entries ≡ dropped ++ drop_expired now_ms entries)
      × All (IsExpired now_ms) dropped
      × IsFresh now_ms (drop_expired now_ms entries)
unfolding drop_expired
drop_expired-IsFresh now_ms [] = ([], refl, tt, tt)
drop_expired-IsFresh now_ms (entry ∷ rest) = elim (Bool-cases (leb entry.expire_time_ms now_ms)) [
  | inl expired ↦
      let (dropped, e, all, fresh) = drop_expired-IsFresh now_ms rest in
      rw expired (entry ∷ dropped, ap (λ t. entry ∷ t) e, (ground arith, all), fresh)
  | inr later ↦ rw later ([], refl, tt, ground arith)
]

-- `pop_expired` takes only expired fragments off, from the front, and leaves a queue that is
-- empty or has a fragment at its front that has not expired.
pub pop_expired-IsFresh :
    (tx : TxBuffer) (now_ms : ℕ)
    → (dropped : List TxEntry) × (tx.fragments ≡ dropped ++ (pop_expired tx now_ms).fragments)
      × All (IsExpired now_ms) dropped
      × IsFresh now_ms (pop_expired tx now_ms).fragments
unfolding pop_expired
pop_expired-IsFresh tx now_ms = drop_expired-IsFresh now_ms tx.fragments
