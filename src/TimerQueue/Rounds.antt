-- ===== src/TimerQueue/Rounds.antt =====
-- About `TimerQueue::test` of timer_queue.rs: which timers one call goes over.
use redpine_rs.Common.{
  ℕ, ◌≡◌, refl, sym, ap, subst, Bool, true, false, Option, none, some, List, [], ◌∷◌, ◌++◌, inl,
  inr, map, append_assoc, done, length, take, drop, append-nil, take-append-drop, length-take,
  if◌then◌else◌, Bool-cases, Option-cases,
}
use redpine_rs.TimerQueue.{test_timer, test_rounds, test}

-- The elements with a property, and the values of a partial function.
abbrev pub filter : {A : Type 0} → (A → Bool) → List A → List A
filter p [] = []
filter p (x ∷ xs) = if p x then x ∷ filter p xs else filter p xs

abbrev pub is_alive : {A : Type 0} → Option A → Bool
is_alive none = false
is_alive (some a) = true

abbrev pub values : {A : Type 0} → List (Option A) → List A
values [] = []
values (none ∷ os) = values os
values (some a ∷ os) = a ∷ values os

module _ {Timer : Type 0} (upgrade : ℕ → Option Timer) (expired : Timer → Bool) where
  -- The references of a queue whose timers are alive, and the timers of a queue that have expired,
  -- both in the order of the queue.
  abbrev pub alive : List ℕ → List ℕ
  alive queue = filter (λ weak. is_alive (upgrade weak)) queue

  abbrev pub signalling : List ℕ → List Timer
  signalling queue = filter expired (values (map upgrade queue))

  -- What the test of one timer adds to both.
  pub alive-cons :
      (weak : ℕ) (queue : List ℕ)
      → alive (weak ∷ queue) ≡ (test_timer upgrade expired (upgrade weak) weak).0 ++ alive queue
  alive-cons weak queue = elim (Option-cases (upgrade weak)) [
    | inl dead ↦ rw dead refl
    | inr (timer, up) ↦ rw up refl
  ]

  signalling-cons :
      (weak : ℕ) (queue : List ℕ)
      → signalling (weak ∷ queue)
        ≡ (test_timer upgrade expired (upgrade weak) weak).1 ++ signalling queue
  signalling-cons weak queue = elim (Option-cases (upgrade weak)) [
    | inl dead ↦ rw dead refl
    | inr (timer, up) ↦ elim (Bool-cases (expired timer)) [
      | inl over ↦ rw (up, over) refl
      | inr early ↦ rw (up, early) refl
    ]
  ]

  test_rounds-front :
      (front rest : List ℕ)
      → test_rounds upgrade expired (length front) (front ++ rest)
        ≡ done (rest ++ alive front, signalling front)
  unfolding test_rounds
  test_rounds-front [] rest = ap (λ q. done (q, [])) (sym (append-nil rest))
  test_rounds-front (weak ∷ front) rest =
      let (back, signalled) = test_timer upgrade expired (upgrade weak) weak in
      rw (alive-cons weak front, signalling-cons weak front, append_assoc front rest back)
        (rw (test_rounds-front front (rest ++ back)) (
          ap (λ q. done (q, signalled ++ signalling front)) (append_assoc rest back (alive front))))

  -- `test` takes as many timers as the limit allows off the front, signals those of them that are
  -- alive and have expired, in order, and puts those that are alive at the back, in order. It never
  -- panics.
  pub test-front :
      (limit : ℕ) (queue : List ℕ)
      → let front = take limit queue in
        test upgrade expired limit queue ≡ done (drop limit queue ++ alive front, signalling front)
  unfolding test
  test-front limit queue =
      let front = take limit queue in
      let result = done (drop limit queue ++ alive front, signalling front) in
      subst (λ n. test_rounds upgrade expired n queue ≡ result) (length-take limit queue)
        (subst (λ q. test_rounds upgrade expired (length front) q ≡ result)
          (take-append-drop limit queue) (test_rounds-front front (drop limit queue)))
