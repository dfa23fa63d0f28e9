-- ===== src/Examples/Connection.antt =====
-- The theorems about the endpoint at concrete inputs. The clock's arithmetic is that of eighths of a
-- millisecond.
use redpine_rs.Common.{
  ◌++◌, ◌++◌, ℕ, ◌+◌, ◌-◌, ◌*◌, ◌/◌, ◌%◌, max, ◌≡◌, refl, Bool, true, false, none, List, [], ◌∷◌,
  arith, ◌==◌, Run, done, panic, unfinished, length, undefined, replicate,
}
use redpine_rs.Frame.{close_ack}
use redpine_rs.Buffer.{FragmentRc}
use redpine_rs.Buffer.Reliable
use redpine_rs.Buffer.Unreliable
use redpine_rs.Frame.{close}
use redpine_rs.Endpoint.Prio.{config}
use redpine_rs.Endpoint.Prio.{Config as PrioConfig}
use redpine_rs.Endpoint.Connection.Closing.{IsRefused, other, handle_frame-IsRefused}
use redpine_rs.Endpoint.Host.{Host}
use redpine_rs.Endpoint.Float.{Float}
use redpine_rs.Endpoint.Prio.{Prio}
use redpine_rs.Endpoint.AimdReno.{unbounded_slow_start}
use redpine_rs.Endpoint.SegmentRx.{segment_rx}
use redpine_rs.Endpoint.FragmentQueues.{FragmentQueues}
use redpine_rs.Endpoint.SegmentTx.{segment_tx}
use redpine_rs.Endpoint.FragmentQueues.{fragment_queues}
use redpine_rs.Endpoint.AimdReno.{aimd_reno}
use redpine_rs.Frame.Io.{write_u8, write_u32, write_slice, store, read_u32, be_bytes_u32, be_u32}
use redpine_rs.Frame.Block.{block_serial, write_close, read_close_ack}
use redpine_rs.Frame.Envelope.{
  simple_write, simple_read, frame_writer, frame_write, finalize, payload_read, type_bits,
}
use redpine_rs.Frame.Crc.{compute, extend, extend_byte, partial_results}
use redpine_rs.Endpoint.Connection.Handling.{disconnect, handle_frame}
use redpine_rs.Endpoint.Connection.{
  init, Endpoint, Config, endpoint, pre_init, closed, zombie, continue, terminate,
}
use redpine_rs.Endpoint.Connection.Receiving.{Inbox, receive_segments}
use redpine_rs.Endpoint.Connection.Total.{Delivered, receive_segments-Delivered}
use redpine_rs.Endpoint.Connection.Timeout.{handle_rto_timer}
use redpine_rs.Endpoint.Connection.Lifecycle.{Moves, IsOrderly}
use redpine_rs.Endpoint.Connection.Firing.{handle_rto_timer-action}
use redpine_rs.Endpoint.Connection.Operations.{
  Operation, init_with, disconnect_at, rto_timer_at, receive_frame, apply, apply_all, apply-Moves,
  apply_all-IsOrderly,
}

instance abbrev pub eighths : Float ℕ
eighths = record {
  alpha = 1;
  beta = 2;
  g_ms = 32;
  k = 32;
  one = 8;
  two = 16;
  add = λ a b. a + b;
  sub = λ a b. a - b;
  mul = λ a b. a * b / 8;
  div = λ a b. a * 8 / b;
  abs = λ a. a;
  max = λ a b. max a b;
  ceil = λ a. (a + 7) / 8 * 8;
  of_u64 = λ n. n * 8;
  to_u64 = λ a. a / 8;
}

abbrev pub draws : ℕ → Bool
draws n = n % 2 == 0

abbrev whole : List ℕ → FragmentRc
whole contents = record {
  first = true;
  last = true;
  bytes = contents;
  range_start = 0;
  range_end = length contents;
}

abbrev evenly : Prio
evenly = record {
  weights = record { at0 = 1; at1 = 1; at2 = 1; at3 = 1 };
  counters = record { at0 = 0; at1 = 0; at2 = 0; at3 = 0 };
  counter_max = 10000;
}

-- An unreliable packet that expires at 20 and a reliable one.
abbrev queues : FragmentQueues
queues = record {
  unrel = record {
    fragments = record { fragment = whole (7 ∷ 8 ∷ []); expire_time_ms = 20 } ∷ [];
    next_fragment_id = 3;
    fragment_size = 1024;
  };
  rel = record {
    fragments = whole (9 ∷ []) ∷ [];
    next_send_id = 5;
    max_ack_id = 5;
    fragment_size = 1024;
    send_window = record { base_id = 5; size = 4096 };
    duplicate_ack_count = 0;
  };
  prio = evenly;
}

abbrev room : List ℕ
room = replicate {A = ℕ} 40 0

abbrev no_calls : Host
no_calls = record { calls = []; draws = 0 }

abbrev waiting : Inbox
waiting = record {
  unreliable_rx = record { fragment_size = 1024; base_id = 3; current_build = none };
  reliable_rx = record { fragment_size = 1024; next_fragment_id = 5; current_build = none };
  host = no_calls;
  send_ack = false;
  ack_rel = false;
}

receive_segments-Delivered_example :
    (after : Inbox) × (receive_segments ((1 ∷ 2 ∷ []) ∷ [] ∷ []) waiting ≡ done after)
    × Delivered waiting after
receive_segments-Delivered_example = receive_segments-Delivered ((1 ∷ 2 ∷ []) ∷ [] ∷ []) waiting

abbrev settings : Config
settings = record {
  timeout_time_ms = 30000;
  prio_config = record {
    weights = record { at0 = 1; at1 = 1; at2 = 1; at3 = 1 };
    counter_max = 10000;
  };
}

-- An endpoint with small buffers.
abbrev small : Endpoint ℕ
small = record {
  config = settings;
  state_id = pre_init;
  local_nonce = 0;
  remote_nonce = 0;
  segment_tx = record {
    base_id = 0;
    next_id = 0;
    size = 64;
    transit_buf = replicate {A = ℕ} 64 0;
    transit_buf_mask = 63;
    nonce_buf = 0 ∷ [];
    nonce_buf_mask = 0;
    transit_total = 0;
    ack_history = 4294967295;
    nonce_history = 0;
  };
  fragment_tx = queues;
  cc_state = record {
    mode = unbounded_slow_start;
    mss_q16 = 65536;
    cwnd_q16 = 655360;
    dropcnt_q16 = 0;
  };
  tx_buffer = room;
  rto_ms = 1000;
  rto_timer_state = none;
  rtt_state = none;
  rtt_timer_state = none;
  segment_rx = segment_rx 0 64 40;
  unreliable_rx = record { fragment_size = 1024; base_id = 0; current_build = none };
  reliable_rx = record { fragment_size = 1024; next_fragment_id = 0; current_build = none };
}

abbrev small_closed : Endpoint ℕ
small_closed = record small { state_id = closed }

fires :
    handle_rto_timer draws 5 small_closed no_calls
    ≡ done (record small { state_id = zombie }, no_calls, terminate)
unfolding handle_rto_timer
fires = refl

handle_rto_timer-action_example :
    (terminate ≡ terminate → zombie ≡ zombie) × (terminate ≡ continue → zombie ≡ closed)
handle_rto_timer-action_example =
    handle_rto_timer-action draws 5 small_closed (record small { state_id = zombie }) no_calls
      no_calls terminate fires

applied :
    apply draws (rto_timer_at 5) small_closed no_calls
    ≡ done (record small { state_id = zombie }, no_calls)
unfolding apply handle_rto_timer
applied = refl

apply-Moves_example : Moves closed zombie
apply-Moves_example =
    apply-Moves draws (rto_timer_at 5) small_closed (record small { state_id = zombie }) no_calls
      no_calls applied

abbrev other_nonce : List ℕ
other_nonce = be_bytes_u32 7 ++ (9 ∷ [])

other_nonce-IsRefused : IsRefused other_nonce 0
other_nonce-IsRefused = other 7 (9 ∷ []) (omega arith) (λ e. omega arith) refl

handle_frame-IsRefused_example :
    (handle_frame draws close other_nonce 5 small_closed no_calls ≡ done (small_closed, no_calls))
    × (handle_frame draws close_ack other_nonce 5 small_closed no_calls
        ≡ done (small_closed, no_calls))
handle_frame-IsRefused_example =
    handle_frame-IsRefused draws other_nonce 5 small_closed no_calls other_nonce-IsRefused

abbrev pub result_or : {A : Type 0} → Run A → A → A
result_or (done a) spare = a
result_or panic spare = spare
result_or undefined spare = spare
result_or unfinished spare = spare

abbrev story : List Operation
story =
    init_with
    ∷ disconnect_at 5
    ∷ receive_frame close_ack (0 ∷ 0 ∷ 0 ∷ 0 ∷ []) 9
    ∷ rto_timer_at 20000
    ∷ []

abbrev begun : Endpoint ℕ
begun = result_or (endpoint settings) small

abbrev ended : Endpoint ℕ × Host
ended = result_or (apply_all draws story begun no_calls) (small, no_calls)

begun_lem : endpoint settings ≡ done begun
unfolding endpoint segment_tx fragment_queues Unreliable.tx_buffer Reliable.tx_buffer aimd_reno
    Unreliable.rx_buffer Reliable.rx_buffer
begun_lem = refl

ended_lem : apply_all draws story begun no_calls ≡ done ended
unfolding apply_all be_bytes_u32 be_u32 init disconnect handle_frame handle_rto_timer simple_write
    simple_read frame_writer frame_write finalize payload_read write_u8 write_u32 write_slice store
    block_serial write_close read_close_ack read_u32 type_bits compute extend extend_byte
    partial_results endpoint segment_tx fragment_queues Unreliable.tx_buffer Reliable.tx_buffer
    aimd_reno Unreliable.rx_buffer Reliable.rx_buffer
ended_lem = refl

apply_all-IsOrderly_example : IsOrderly ended.0 ended.1
apply_all-IsOrderly_example =
    apply_all-IsOrderly draws settings story begun ended.0 ended.1 begun_lem ended_lem
