-- ===== src/Endpoint/Prio/Counters.antt =====
-- About `mark_sent` of endpoint/prio.rs: each counter after a datagram went out.
use redpine_rs.Common.{
  ==-self, true, ==→eq, ℕ, zero, suc, ◌+◌, ◌-◌, ◌*◌, ◌≤◌, ◌<◌, ◌≡◌, refl, inl, inr, arith, ltb,
  ◌==◌, if◌then◌else◌, Bool-cases, ltb_false→le, done,
}
use redpine_rs.Endpoint.Prio.{Array4, map4, Prio, clamp, store, mark_sent, data_size_max}
use native.Mathlib.Numerals.{unary_clauses}
use redpine_rs.Endpoint.Prio.Fair.{IsValid, at, counted, mark_sent-counted}

-- The counter of channel `i` once the weighted size is added to the channel that sent, and by how
-- much the counter of that channel is then past the maximum.
abbrev pub raised : Prio → ℕ → ℕ → ℕ → ℕ
raised p channel_idx data_size i =
    at p.counters i + (if i == channel_idx then data_size * at p.weights channel_idx else 0)

abbrev pub excess : Prio → ℕ → ℕ → ℕ
excess p channel_idx data_size = raised p channel_idx data_size channel_idx - p.counter_max

pub record IsRaised (p : Prio) (channel_idx data_size : ℕ) (p' : Prio) : Type 0 where
  pub weights : p'.weights ≡ p.weights
  pub counter_max : p'.counter_max ≡ p.counter_max
  pub counters :
      (i : ℕ)
      → i < 4
      → at p'.counters i ≡ raised p channel_idx data_size i - excess p channel_idx data_size

-- Below the maximum the subtraction takes off nothing.
clamp-map4 :
    (p : Prio) (counter : ℕ)
    → clamp p counter ≡ record p { counters = map4 (λ c. c - (counter - p.counter_max)) p.counters }
unfolding clamp
clamp-map4 p counter = elim (Bool-cases (ltb p.counter_max counter)) [
  | inl over ↦ rw over refl
  | inr within ↦
      let none_over : counter - p.counter_max ≡ 0 = omega (arith, ltb_false→le _ _ within) in
      rw (within, none_over) (simp unary_clauses refl)
]

at-map4 : (f : ℕ → ℕ) (a : Array4) (i : ℕ) → at (map4 f a) i ≡ f (at a i)
at-map4 f a zero = refl
at-map4 f a (suc zero) = refl
at-map4 f a (suc (suc zero)) = refl
at-map4 f a (suc (suc (suc i))) = refl

at-store :
    (a : Array4) (x i j : ℕ) → i < 4 → j < 4 → at (store a j x) i ≡ (if i == j then x else at a i)
unfolding store
at-store a x zero zero h k = refl
at-store a x (suc zero) zero h k = refl
at-store a x (suc (suc zero)) zero h k = refl
at-store a x (suc (suc (suc zero))) zero h k = refl
at-store a x (suc (suc (suc (suc i)))) zero h k = absurd (omega arith)
at-store a x zero (suc zero) h k = refl
at-store a x (suc zero) (suc zero) h k = refl
at-store a x (suc (suc zero)) (suc zero) h k = refl
at-store a x (suc (suc (suc zero))) (suc zero) h k = refl
at-store a x (suc (suc (suc (suc i)))) (suc zero) h k = absurd (omega arith)
at-store a x zero (suc (suc zero)) h k = refl
at-store a x (suc zero) (suc (suc zero)) h k = refl
at-store a x (suc (suc zero)) (suc (suc zero)) h k = refl
at-store a x (suc (suc (suc zero))) (suc (suc zero)) h k = refl
at-store a x (suc (suc (suc (suc i)))) (suc (suc zero)) h k = absurd (omega arith)
at-store a x zero (suc (suc (suc zero))) h k = refl
at-store a x (suc zero) (suc (suc (suc zero))) h k = refl
at-store a x (suc (suc zero)) (suc (suc (suc zero))) h k = refl
at-store a x (suc (suc (suc zero))) (suc (suc (suc zero))) h k = refl
at-store a x (suc (suc (suc (suc i)))) (suc (suc (suc zero))) h k = absurd (omega arith)
at-store a x i (suc (suc (suc (suc j)))) h k = absurd (omega arith)

raised_or_kept :
    (p : Prio) (channel_idx data_size i off : ℕ)
    → (if i == channel_idx
          then at p.counters channel_idx + data_size * at p.weights channel_idx
          else at p.counters i)
        - off
      ≡ raised p channel_idx data_size i - off
raised_or_kept p channel_idx data_size i off = elim (Bool-cases (i == channel_idx)) [
  | inl here ↦ let same : i ≡ channel_idx = ==→eq _ _ here in rw (here, same) refl
  | inr other ↦ rw other (omega arith)
]

counted-IsRaised :
    (p : Prio) (channel_idx data_size : ℕ)
    → channel_idx < 4
    → IsRaised p channel_idx data_size (counted p channel_idx data_size)
counted-IsRaised p channel_idx data_size h =
    let counter = at p.counters channel_idx + data_size * at p.weights channel_idx in
    let stored = record p { counters = store p.counters channel_idx counter } in
    let same : (channel_idx == channel_idx) ≡ true = ==-self channel_idx in
    rw (clamp-map4 stored counter) (record {
      weights = refl;
      counter_max = refl;
      counters = λ i lt.
          rw
            (
              at-map4 (λ c. c - (counter - p.counter_max)) stored.counters i,
              at-store p.counters counter i channel_idx lt h,
              same,
            )
            (raised_or_kept p channel_idx data_size i (counter - p.counter_max));
    })

-- On a well formed state, for a channel and a size that the assertions allow, `mark_sent` returns a
-- well formed state with the same weights and the same maximum, in which every counter is what it
-- was, with the size times the weight added for the channel that sent, less the amount by which the
-- sum for that channel is past the maximum, and at least 0.
pub mark_sent-IsRaised :
    (p : Prio) (channel_idx data_size : ℕ)
    → channel_idx < 4
    → data_size ≤ data_size_max
    → IsValid p
    → (p' : Prio) × (mark_sent p channel_idx data_size ≡ done p')
      × IsRaised p channel_idx data_size p'
      × IsValid p'
mark_sent-IsRaised p channel_idx data_size h k v =
    let (marked, valid) = mark_sent-counted p channel_idx data_size h k v in
    (_, marked, counted-IsRaised p channel_idx data_size h, valid)
