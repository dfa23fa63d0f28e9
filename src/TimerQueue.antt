-- ===== src/TimerQueue.antt =====
-- timer_queue.rs: a queue of weak references to timers, tested a few at a time. A weak reference is
-- an address: `upgrade` gives the timer while it is alive. `Timer::test` is a parameter, and the
-- calls of the callback are the list of timers that expired.
pub mod Rounds
use redpine_rs.Common.{
  ℕ, zero, suc, ◌+◌, ◌-◌, ◌*◌, ◌/◌, ◌%◌, ◌^◌, ◌≤◌, ◌<◌, min, max, ◌≡◌, refl, sym, ap, ◌∙◌, subst,
  ◌≢◌, ◌⊎◌, inl, inr, Bool, true, false, ◌&&◌, ◌||◌, not, Option, none, some, List, [], ◌∷◌, ◌++◌,
  map, append_assoc, arith, ltb, leb, ◌==◌, if◌then◌else◌, ltb→lt, lt→ltb, le→ltb_false,
  ltb_false→le, le→leb, ==→eq, ==-self, Bool-cases, Option-cases, Run, done, panic, assert, ◌>>=◌,
  ◌>>◌, length, get_elem?, take, drop, All, length-drop, bit_and, bit_or, bit_xor,
}

-- `upgrade` and `expired` are what `Weak::upgrade` and `Timer::test` say at the time of the call.
module _ {Timer : Type 0} (upgrade : ℕ → Option Timer) (expired : Timer → Bool) where
  abbrev pub test_timer : Option Timer → ℕ → List ℕ × List Timer
  test_timer none weak = ([], [])
  test_timer (some timer) weak = (weak ∷ [], if expired timer then timer ∷ [] else [])

  -- the loop of `TimerQueue::test`, over `rounds` rounds
  unfoldable pub test_rounds : ℕ → List ℕ → Run (List ℕ × List Timer)
  test_rounds zero queue = done (queue, [])
  test_rounds (suc rounds) [] = panic
  test_rounds (suc rounds) (weak ∷ queue) = do
    let (back, signalled) = test_timer (upgrade weak) weak
    (queue', later) ← test_rounds rounds (queue ++ back)
    done (queue', signalled ++ later)

  -- `TimerQueue::test`
  unfoldable pub test : ℕ → List ℕ → Run (List ℕ × List Timer)
  unfolding test_rounds
  test limit queue = test_rounds (min limit (length queue)) queue

-- `TimerQueue::add_timer`
abbrev pub add_timer : List ℕ → ℕ → List ℕ
add_timer queue timer = queue ++ timer ∷ []
