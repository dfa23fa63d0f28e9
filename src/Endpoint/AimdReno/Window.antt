-- ===== src/Endpoint/AimdReno/Window.antt =====
-- About the congestion window of endpoint/cc.rs: its least and largest values, and the arithmetic on it.
use redpine_rs.Common.{
  ℕ, ◌+◌, ◌*◌, ◌/◌, ◌%◌, ◌^◌, ◌≤◌, ◌<◌, ◌≡◌, refl, sym, subst, inl, inr, List, [], ◌∷◌, arith, leb,
  le→leb, Bool-cases, Run, done, ◌>>=◌,
}
use native.Mathlib.Nat.{mul-le-mul}
use redpine_rs.Common.Word.{saturating_add_u64, IsU64}
use redpine_rs.Endpoint.AimdReno.{
  count_down, handle_ack, grow, grow_to_threshold, AimdReno, Mode, aimd_reno, cwnd_inv,
  handle_timeout, handle_drop,
}

-- The largest segment for which `mss * mss + cwnd / 2` fits a `u64` for every `cwnd`.
abbrev pub largest_mss : ℕ
largest_mss = 46340

abbrev pub IsThreshold : Mode → ℕ → Type 0
IsThreshold (Mode.threshold_slow_start ssthresh) cwnd = (cwnd ≤ ssthresh) × IsU64 ssthresh
IsThreshold Mode.unbounded_slow_start cwnd = Unit
IsThreshold Mode.congestion_avoidance cwnd = Unit

pub record IsValid (s : AimdReno) : Type 0 where
  pub mss_positive : 0 < s.mss_q16
  pub mss_bound : s.mss_q16 ≤ largest_mss * 2 ^ 16
  pub cwnd_floor : 10 * s.mss_q16 ≤ s.cwnd_q16
  pub cwnd_u64 : IsU64 s.cwnd_q16
  pub threshold : IsThreshold s.mode s.cwnd_q16

pub aimd_reno-IsValid :
    (mss : ℕ) → 0 < mss → mss ≤ largest_mss → (s : AimdReno) × (aimd_reno mss ≡ done s) × IsValid s
unfolding aimd_reno
aimd_reno-IsValid mss h k = let e = le→leb mss 65535 (omega arith) in rw e (_, refl, ground arith)

-- The sum does not wrap, so that the quotient is the exact one.
cwnd_inv-exact :
    (mss cwnd : ℕ)
    → 0 < cwnd
    → IsU64 cwnd
    → mss ≤ largest_mss * 2 ^ 16
    → cwnd_inv mss cwnd ≡ done ((mss * mss + cwnd / 2) / cwnd)
unfolding cwnd_inv
cwnd_inv-exact mss cwnd h u k =
    let square : mss * mss ≤ (largest_mss * 2 ^ 16) * (largest_mss * 2 ^ 16) = mul-le-mul k k in
    let small : (mss * mss) % 2 ^ 64 ≡ mss * mss = omega arith in
    let sum : (mss * mss + cwnd / 2) % 2 ^ 64 ≡ mss * mss + cwnd / 2 = omega arith in ground arith

handle_timeout-IsValid : (s : AimdReno) → IsValid s → IsValid (handle_timeout s)
unfolding handle_timeout
handle_timeout-IsValid s v = ground arith

handle_drop-IsValid : (s : AimdReno) → IsValid s → IsValid (handle_drop s)
unfolding handle_drop
handle_drop-IsValid s v = ground arith

-- On a well formed state, a second drop right after a drop changes nothing.
pub handle_drop-again : (s : AimdReno) → IsValid s → handle_drop (handle_drop s) ≡ handle_drop s
unfolding handle_drop
handle_drop-again s v = ground arith

-- What an ack does to a well formed state.
abbrev pub IsGrown : AimdReno → Run AimdReno → Type 0
IsGrown s r = (s' : AimdReno) × (r ≡ done s') × IsValid s' × (s.cwnd_q16 ≤ s'.cwnd_q16)

resized-IsGrown :
    (s : AimdReno) (mode : Mode) (cwnd : ℕ)
    → IsValid s
    → s.cwnd_q16 ≤ cwnd
    → IsU64 cwnd
    → IsThreshold mode cwnd
    → IsGrown s (done (record s { mode = mode; cwnd_q16 = cwnd }))
resized-IsGrown s mode cwnd v more u t = (
  _,
  refl,
  record {
    mss_positive = v.mss_positive;
    mss_bound = v.mss_bound;
    cwnd_floor = omega (arith, v.cwnd_floor);
    cwnd_u64 = u;
    threshold = t;
  },
  more,
)

grow_to_threshold-IsGrown :
    (s : AimdReno) (ssthresh : ℕ)
    → s.mode ≡ Mode.threshold_slow_start ssthresh
    → IsValid s
    → IsGrown s (done (grow_to_threshold s ssthresh))
unfolding grow_to_threshold
grow_to_threshold-IsGrown s ssthresh e v =
    let new_cwnd = saturating_add_u64 s.cwnd_q16 s.mss_q16 in
    let u = v.cwnd_u64 in
    let t : (s.cwnd_q16 ≤ ssthresh) × IsU64 ssthresh =
      subst (λ m. IsThreshold m s.cwnd_q16) e v.threshold in
    elim (Bool-cases (leb ssthresh new_cwnd)) [
      | inl reached ↦ rw reached (resized-IsGrown s Mode.congestion_avoidance ssthresh v t.0 t.1 tt)
      | inr below ↦
          let less : new_cwnd < ssthresh = ground arith in
          rw below (
            resized-IsGrown s s.mode new_cwnd v (omega arith) (omega arith)
              (subst (λ m. IsThreshold m new_cwnd) (sym e) (omega arith, t.1)))
    ]

grow-IsGrown : (s : AimdReno) (mode : Mode) → s.mode ≡ mode → IsValid s → IsGrown s (grow s mode)
unfolding grow
grow-IsGrown s Mode.unbounded_slow_start e v =
    let new_cwnd = saturating_add_u64 s.cwnd_q16 s.mss_q16 in
    let u = v.cwnd_u64 in
    resized-IsGrown s s.mode new_cwnd v (omega arith) (omega arith)
      (subst (λ m. IsThreshold m new_cwnd) (sym e) tt)
grow-IsGrown s (Mode.threshold_slow_start ssthresh) e v = grow_to_threshold-IsGrown s ssthresh e v
grow-IsGrown s Mode.congestion_avoidance e v =
    let inv = (s.mss_q16 * s.mss_q16 + s.cwnd_q16 / 2) / s.cwnd_q16 in
    let new_cwnd = saturating_add_u64 s.cwnd_q16 inv in
    let u = v.cwnd_u64 in
    rw
      (cwnd_inv-exact s.mss_q16 s.cwnd_q16 (omega (arith, v.mss_positive, v.cwnd_floor)) u
        v.mss_bound)
      (resized-IsGrown s s.mode new_cwnd v (omega arith) (omega arith)
        (subst (λ m. IsThreshold m new_cwnd) (sym e) tt))

-- On a well formed state an ack is handled without a panic, and the window does not shrink.
handle_ack-IsGrown : (s : AimdReno) → IsValid s → IsGrown s (handle_ack s)
unfolding handle_ack
handle_ack-IsGrown s v =
    let counted = record s { dropcnt_q16 = count_down s.dropcnt_q16 s.mss_q16 } in
    grow-IsGrown counted s.mode refl (record {
      mss_positive = v.mss_positive;
      mss_bound = v.mss_bound;
      cwnd_floor = v.cwnd_floor;
      cwnd_u64 = v.cwnd_u64;
      threshold = v.threshold;
    })

-- What happens to a connection.
pub data Event : Type 0 where
  ack timed_out dropped : Event

abbrev pub handle : Event → AimdReno → Run AimdReno
handle Event.ack s = handle_ack s
handle Event.timed_out s = done (handle_timeout s)
handle Event.dropped s = done (handle_drop s)

abbrev pub handle_all : List Event → AimdReno → Run AimdReno
handle_all [] s = done s
handle_all (e ∷ es) s = handle e s >>= handle_all es

handle_all-from :
    (events : List Event) (s : AimdReno)
    → IsValid s
    → (s' : AimdReno) × (handle_all events s ≡ done s') × IsValid s'
handle_all-from [] s v = (s, refl, v)
handle_all-from (Event.ack ∷ es) s v =
    let (s', e, v', _) = handle_ack-IsGrown s v in rw e (handle_all-from es s' v')
handle_all-from (Event.timed_out ∷ es) s v =
    handle_all-from es (handle_timeout s) (handle_timeout-IsValid s v)
handle_all-from (Event.dropped ∷ es) s v =
    handle_all-from es (handle_drop s) (handle_drop-IsValid s v)

-- From a new state, for a segment size between 1 and 46340, any sequence of acks, timeouts and
-- drops is handled without a panic, and leaves a well formed state: a window of at least ten
-- segments that fits a `u64`.
pub handle_all-IsValid :
    (mss : ℕ) (events : List Event)
    → 0 < mss
    → mss ≤ largest_mss
    → (s : AimdReno) × ((aimd_reno mss >>= handle_all events) ≡ done s) × IsValid s
handle_all-IsValid mss events positive small =
    let (s, e, v) = aimd_reno-IsValid mss positive small in rw e (handle_all-from events s v)
