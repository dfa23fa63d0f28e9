-- ===== src/Endpoint/Connection.antt =====
-- The state of an endpoint (endpoint/mod.rs), and the smaller steps that its handlers are made of.
-- Times are `u64` and wrap.
pub mod Receiving
pub mod Sending
pub mod Total
pub mod Quiet
pub mod Streams
pub mod Lifecycle
pub mod Firing
pub mod Operations
pub mod Closing
pub mod Handling
pub mod Timeout
pub mod Fresh
use redpine_rs.Common.{
  ℕ, zero, suc, ◌+◌, ◌-◌, ◌*◌, ◌/◌, ◌%◌, ◌^◌, ◌≤◌, ◌<◌, min, max, ◌≡◌, refl, sym, ap, ◌∙◌, subst,
  ◌≢◌, ◌⊎◌, inl, inr, Bool, true, false, ◌&&◌, ◌||◌, not, Option, none, some, List, [], ◌∷◌, ◌++◌,
  map, append_assoc, arith, ltb, leb, ◌==◌, if◌then◌else◌, ltb→lt, lt→ltb, le→ltb_false,
  ltb_false→le, le→leb, ==→eq, ==-self, Bool-cases, Option-cases, Run, done, panic, unfinished,
  assert, ◌>>=◌, ◌>>◌, length, get_elem?, take, drop, All, length-drop, bit_and, bit_or, bit_xor,
  replicate,
}
use redpine_rs.Common.Word.{wrapping_add}
use redpine_rs.Buffer.Reliable
use redpine_rs.Buffer.Unreliable
use redpine_rs.Endpoint.Host.{Call, set_rto_timer, unset_rto_timer, on_connect, Host, call}
use redpine_rs.Endpoint.Float.{Float}
use redpine_rs.Endpoint.FragmentQueues.{FragmentQueues, fragment_queues, SendMode}
use redpine_rs.Endpoint.FragmentQueues
use redpine_rs.Endpoint.AimdReno.{AimdReno, aimd_reno}
use redpine_rs.Endpoint.Prio.{Array4}
use redpine_rs.Endpoint.Prio
use redpine_rs.Endpoint.SegmentRx.{SegmentRx, segment_rx}
use redpine_rs.Endpoint.SegmentTx.{SegmentTx, segment_tx}

abbrev pub disconnect_timeout_ms : ℕ
disconnect_timeout_ms = 10000

abbrev pub frame_size_max : ℕ
frame_size_max = 1472

abbrev pub segment_window_size : ℕ
segment_window_size = 4096

abbrev pub fragment_size : ℕ
fragment_size = 1024

abbrev pub fragment_window_size : ℕ
fragment_window_size = 4096

abbrev pub rto_initial_ms : ℕ
rto_initial_ms = 1000

abbrev pub rto_max_ms : ℕ
rto_max_ms = 60000

abbrev pub rto_min_ms : ℕ
rto_min_ms = 1000

pub record ChannelBalanceConfig : Type 0 where
  pub unreliable_weight : ℕ
  pub reliable_weight : ℕ
  pub burst_size : ℕ

-- `From<ChannelBalanceConfig> for prio::Config`, and `validate`, which throws its result away
unfoldable pub prio_config : ChannelBalanceConfig → Run Prio.Config
prio_config c =
    Prio.config (record { at0 = c.unreliable_weight; at1 = c.reliable_weight; at2 = 1; at3 = 1 })
      c.burst_size

unfoldable pub validate : ChannelBalanceConfig → Run (Unit {0})
unfolding prio_config
validate c = do built ← prio_config c; done tt

abbrev pub default_balance : ChannelBalanceConfig
default_balance = record { unreliable_weight = 1; reliable_weight = 1; burst_size = 10000 }

pub data TimeoutAction : Type 0 where
  continue terminate : TimeoutAction

pub record Config : Type 0 where
  pub timeout_time_ms : ℕ
  pub prio_config : Prio.Config

pub record RttState (F : Type 0) : Type 0 where
  pub srtt_ms : F
  pub rttvar_ms : F

pub record RtoTimerState : Type 0 where
  pub rto_ms : ℕ
  pub rto_sum_ms : ℕ

pub record RttTimerState : Type 0 where
  pub segment_id : ℕ
  pub send_time_ms : ℕ
  pub expire_time_ms : ℕ

pub data StateId : Type 0 where
  pre_init active closing closed zombie : StateId

pub record Endpoint (F : Type 0) : Type 0 where
  pub config : Config
  pub state_id : StateId
  pub local_nonce : ℕ
  pub remote_nonce : ℕ
  pub segment_tx : SegmentTx
  pub fragment_tx : FragmentQueues
  pub cc_state : AimdReno
  pub tx_buffer : List ℕ
  pub rto_ms : ℕ
  pub rto_timer_state : Option RtoTimerState
  pub rtt_state : Option (RttState F)
  pub rtt_timer_state : Option RttTimerState
  pub segment_rx : SegmentRx
  pub unreliable_rx : Unreliable.RxBuffer
  pub reliable_rx : Reliable.RxBuffer

-- `Endpoint::new`
unfoldable pub endpoint : {F : Type 0} → Config → Run (Endpoint F)
unfolding segment_rx
endpoint config = do
  tx ← segment_tx 0 segment_window_size
  queues ← fragment_queues 0 fragment_window_size fragment_size config.prio_config
  cc_state ← aimd_reno fragment_size
  unreliable_rx ← Unreliable.rx_buffer 0 fragment_size
  reliable_rx ← Reliable.rx_buffer 0 fragment_size
  done (record {
    config = config;
    state_id = pre_init;
    local_nonce = 0;
    remote_nonce = 0;
    segment_tx = tx;
    fragment_tx = queues;
    cc_state = cc_state;
    tx_buffer = replicate {A = ℕ} frame_size_max 0;
    rto_ms = rto_initial_ms;
    rto_timer_state = none;
    rtt_state = none;
    rtt_timer_state = none;
    segment_rx = segment_rx 0 segment_window_size frame_size_max;
    unreliable_rx = unreliable_rx;
    reliable_rx = reliable_rx;
  })

abbrev pub is_active : StateId → Bool
is_active active = true
is_active _ = false

abbrev pub is_pre_init : StateId → Bool
is_pre_init pre_init = true
is_pre_init _ = false

-- the sum of two `u64` times
abbrev pub later : ℕ → ℕ → ℕ
later now_ms ms = (now_ms + ms) % 2 ^ 64

abbrev pub clamp_rto : ℕ → ℕ
clamp_rto ms = min (max ms rto_min_ms) rto_max_ms

module _ {F : Type 0} where
  -- `Endpoint::init`
  unfoldable pub init : Endpoint F → Host → Run (Endpoint F × Host)
  init ep host = do
    assert (is_pre_init ep.state_id)
    done (record ep { state_id = active }, call on_connect host)

  -- `Endpoint::enqueue`
  unfoldable pub enqueue : Endpoint F → List ℕ → SendMode → ℕ → Endpoint F
  enqueue ep packet_bytes mode now_ms =
      if is_active ep.state_id
      then record ep {
        fragment_tx = FragmentQueues.enqueue ep.fragment_tx packet_bytes mode now_ms;
      }
      else ep

  -- the new estimate, from the last and a measurement
  unfoldable pub measure : ⦃f : Float F⦄ → Option (RttState F) → F → RttState F
  measure ⦃f⦄ none rtt_ms = record { srtt_ms = rtt_ms; rttvar_ms = f.div rtt_ms f.two }
  measure ⦃f⦄ (some s) rtt_ms = record {
    srtt_ms = f.add (f.mul (f.sub f.one f.alpha) s.srtt_ms) (f.mul f.alpha rtt_ms);
    rttvar_ms =
        f.add (f.mul (f.sub f.one f.beta) s.rttvar_ms)
          (f.mul f.beta (f.abs (f.sub s.srtt_ms rtt_ms)));
  }

  abbrev pub rto_of : ⦃f : Float F⦄ → RttState F → ℕ
  rto_of ⦃f⦄ s =
      clamp_rto (f.to_u64 (f.ceil (f.add s.srtt_ms (f.max f.g_ms (f.mul f.k s.rttvar_ms)))))

  -- `update_rtt` while the timer runs
  unfoldable pub update_rtt_timer : ⦃f : Float F⦄ → RttTimerState → ℕ → ℕ → Endpoint F → Endpoint F
  unfolding measure
  update_rtt_timer ⦃f⦄ timer segment_id now_ms ep =
      let rtt_ms = f.of_u64 ((now_ms + 2 ^ 64 - timer.send_time_ms) % 2 ^ 64) in
      let rtt = measure ep.rtt_state rtt_ms in
      if segment_id == wrapping_add timer.segment_id 1
      then record ep { rtt_state = some rtt; rto_ms = rto_of rtt; rtt_timer_state = none }
      else if leb timer.expire_time_ms now_ms
      then record ep { rtt_timer_state = none }
      else ep

  abbrev pub update_rtt_in : ⦃f : Float F⦄ → Option RttTimerState → ℕ → ℕ → Endpoint F → Endpoint F
  update_rtt_in none segment_id now_ms ep = ep
  update_rtt_in (some timer) segment_id now_ms ep = update_rtt_timer timer segment_id now_ms ep

  unfoldable pub update_rtt : ⦃f : Float F⦄ → ℕ → ℕ → Endpoint F → Endpoint F
  unfolding update_rtt_timer
  update_rtt segment_id now_ms ep = update_rtt_in ep.rtt_timer_state segment_id now_ms ep

  -- `set_rto_timer`, with the state of the timer
  abbrev pub arm_rto_timer : ℕ → Endpoint F → Host → Endpoint F × Host
  arm_rto_timer now_ms ep host = (
    record ep { rto_timer_state = some (record { rto_ms = ep.rto_ms; rto_sum_ms = 0 }) },
    call (set_rto_timer (later now_ms ep.rto_ms)) host,
  )

  abbrev pub update_rto_timer_in :
      Option RtoTimerState → ℕ → ℕ → Endpoint F → Host → Endpoint F × Host
  update_rto_timer_in none segment_id now_ms ep host = (ep, host)
  update_rto_timer_in (some timer) segment_id now_ms ep host =
      if segment_id == ep.segment_tx.next_id
      then (record ep { rto_timer_state = none }, call unset_rto_timer host)
      else arm_rto_timer now_ms ep host

  unfoldable pub update_rto_timer : ℕ → ℕ → Endpoint F → Host → Endpoint F × Host
  update_rto_timer segment_id now_ms ep host =
      update_rto_timer_in ep.rto_timer_state segment_id now_ms ep host
