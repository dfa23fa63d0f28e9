-- ===== src/Endpoint/AimdReno.antt =====
-- endpoint/cc.rs: congestion control in the manner of TCP Reno. The sizes are `u64` in Q16, and
-- the arithmetic wraps as in a release build; a division by zero panics in every build.
pub mod Window
use redpine_rs.Common.{
  ℕ, zero, suc, ◌+◌, ◌-◌, ◌*◌, ◌/◌, ◌%◌, ◌^◌, ◌≤◌, ◌<◌, min, max, ◌≡◌, refl, sym, ap, ◌∙◌, subst,
  ◌≢◌, ◌⊎◌, inl, inr, Bool, true, false, ◌&&◌, ◌||◌, not, Option, none, some, List, [], ◌∷◌, ◌++◌,
  map, append_assoc, arith, ltb, leb, ◌==◌, if◌then◌else◌, ltb→lt, lt→ltb, le→ltb_false,
  ltb_false→le, le→leb, ==→eq, ==-self, Bool-cases, Option-cases, Run, done, panic, assert, ◌>>=◌,
  ◌>>◌, length, get_elem?, take, drop, All, length-drop, bit_and, bit_or, bit_xor,
}
use redpine_rs.Common.Word.{saturating_add_u64}

abbrev pub initial_cwnd_mss : ℕ
initial_cwnd_mss = 10

pub data Mode : Type 0 where
  unbounded_slow_start : Mode
  threshold_slow_start : ℕ → Mode
  congestion_avoidance : Mode

pub record AimdReno : Type 0 where
  pub mode : Mode
  pub mss_q16 : ℕ
  pub cwnd_q16 : ℕ
  pub dropcnt_q16 : ℕ

-- `AimdReno::new`
unfoldable pub aimd_reno : ℕ → Run AimdReno
aimd_reno mss = do
  assert (leb mss 65535)
  done (record {
    mode = unbounded_slow_start;
    mss_q16 = mss * 2 ^ 16 % 2 ^ 64;
    cwnd_q16 = initial_cwnd_mss * mss % 2 ^ 64 * 2 ^ 16 % 2 ^ 64;
    dropcnt_q16 = 0;
  })

-- The drop counter after an ack.
abbrev pub count_down : ℕ → ℕ → ℕ
count_down dropcnt mss = if ltb mss dropcnt then dropcnt - mss else 0

-- `(mss_q16 * mss_q16 + cwnd_q16 / 2) / cwnd_q16`
unfoldable pub cwnd_inv : ℕ → ℕ → Run ℕ
cwnd_inv mss cwnd =
    if cwnd == 0 then panic else done ((mss * mss % 2 ^ 64 + cwnd / 2) % 2 ^ 64 / cwnd)

-- the arm of `ThresholdSlowStart`
unfoldable pub grow_to_threshold : AimdReno → ℕ → AimdReno
grow_to_threshold cc_state ssthresh =
    let new_cwnd = saturating_add_u64 cc_state.cwnd_q16 cc_state.mss_q16 in
    if leb ssthresh new_cwnd
    then record cc_state { cwnd_q16 = ssthresh; mode = congestion_avoidance }
    else record cc_state { cwnd_q16 = new_cwnd }

-- the `match` on the mode
unfoldable pub grow : AimdReno → Mode → Run AimdReno
unfolding cwnd_inv grow_to_threshold
grow cc_state unbounded_slow_start =
    done (record cc_state { cwnd_q16 = saturating_add_u64 cc_state.cwnd_q16 cc_state.mss_q16 })
grow cc_state (threshold_slow_start ssthresh) = done (grow_to_threshold cc_state ssthresh)
grow cc_state congestion_avoidance = do
  inv ← cwnd_inv cc_state.mss_q16 cc_state.cwnd_q16
  done (record cc_state { cwnd_q16 = saturating_add_u64 cc_state.cwnd_q16 inv })

unfoldable pub handle_ack : AimdReno → Run AimdReno
unfolding grow
handle_ack cc_state =
    grow (record cc_state { dropcnt_q16 = count_down cc_state.dropcnt_q16 cc_state.mss_q16 })
      cc_state.mode

-- `INITIAL_CWND_MSS * self.mss_q16`
abbrev pub cwnd_min : AimdReno → ℕ
cwnd_min cc_state = initial_cwnd_mss * cc_state.mss_q16 % 2 ^ 64

unfoldable pub handle_timeout : AimdReno → AimdReno
handle_timeout cc_state = record cc_state {
  cwnd_q16 = cwnd_min cc_state;
  dropcnt_q16 = 0;
  mode = threshold_slow_start (max (cc_state.cwnd_q16 / 2) (cwnd_min cc_state));
}

unfoldable pub handle_drop : AimdReno → AimdReno
handle_drop cc_state =
    let new_cwnd = max (cc_state.cwnd_q16 / 2) (cwnd_min cc_state) in
    if cc_state.dropcnt_q16 == 0
    then record cc_state {
      cwnd_q16 = new_cwnd;
      dropcnt_q16 = new_cwnd;
      mode = congestion_avoidance;
    }
    else cc_state

-- `cwnd`, on a target with 64-bit `usize`, where the conversion does not fail
unfoldable pub cwnd : AimdReno → ℕ
cwnd cc_state = cc_state.cwnd_q16 / 2 ^ 16
