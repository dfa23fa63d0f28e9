-- ===== src/Examples.antt =====
-- The theorems at concrete inputs.
mod Connection
mod Client
mod Server
use redpine_rs.Common.{
  ℕ, ◌*◌, ◌%◌, ◌^◌, ◌≡◌, refl, Bool, true, false, Option, none, some, List, [], ◌∷◌, ◌++◌, arith,
  ◌==◌, if◌then◌else◌, done, ◌>>=◌, take, drop, All, replicate,
}
use redpine_rs.Frame.{HandshakeAlphaFrame, StreamSync, Datagram, stream_sync, handshake_alpha}
use redpine_rs.Frame.Crc.{extend, extend_slow}
use redpine_rs.Frame.Crc.Slow.{extend-eq-extend_slow}
use redpine_rs.Frame.DatagramSerial.{datagram_read, datagram_write}
use redpine_rs.Frame.DatagramSerial.Laws.{IsRead, datagram_read-IsRead, datagram_round_trip}
use redpine_rs.Frame.Block.Stream.{stream_sync-IsLawful}
use redpine_rs.Frame.Envelope.{
  simple_write, simple_read, verify_minimum_size, verify_crc, read_type, payload,
  write_handshake_alpha, verify_handshake_alpha_size_and_crc,
}
use redpine_rs.Frame.Envelope.Reading.{frame_of, frame_of_accepted}
use redpine_rs.Frame.Envelope.Simple.{
  stream_sync_frame, simple_round_trip, write_handshake_alpha-verified,
}
use redpine_rs.Buffer.{split, split_loop, FragmentRef}
use redpine_rs.Buffer.Split.{joined, joined-split}
use redpine_rs.Buffer.Reliable.{peek_sendable, TxBuffer, acknowledge, pop_sendable}
use redpine_rs.Buffer.Reliable.Assembly.{building, id_after}
use redpine_rs.Buffer.Reliable.Invariant.{
  IsValid as IsValidQueue, acknowledge-IsValid, pop_sendable-IsValid,
}
use redpine_rs.Buffer.Reliable.Ack.{peek_sendable-pop_sendable, IsWindowed, acknowledge-IsWindowed}
use redpine_rs.Buffer.Reliable.Resend.{acknowledge_times, IsRepeated, acknowledge_times-IsRepeated}
use redpine_rs.Buffer.Unreliable.{TxEntry, pop_expired}
use redpine_rs.Buffer.Unreliable.{TxBuffer as UnreliableTxBuffer}
use redpine_rs.Buffer.Unreliable.Assembly.{
  building as unreliable_building, id_after as unreliable_id_after, receive_each,
}
use redpine_rs.Buffer.Unreliable.Whole.{IsWhole, receive_each-IsWhole}
use redpine_rs.Buffer.Unreliable.Queue.{IsFresh, IsExpired, pop_expired-IsFresh}
use redpine_rs.Endpoint.AimdReno.{AimdReno, Mode, aimd_reno, handle_drop}
use redpine_rs.Endpoint.AimdReno.Window.{
  IsValid as IsValidCwnd, Event, handle_all, handle_all-IsValid, handle_drop-again,
}
use redpine_rs.Endpoint.Prio.{Array4, Prio, Config, config, prio, next, mark_sent}
use redpine_rs.Endpoint.Prio.Fair.{
  IsValid as IsValidPrio, IsLeast, ready, next-IsLeast, config-IsValid, product4,
}
use redpine_rs.Endpoint.Prio.Counters.{IsRaised, mark_sent-IsRaised}
use redpine_rs.Endpoint.SegmentRx.{SegmentRx, sync}
use redpine_rs.Endpoint.SegmentRx.Invariant.{IsValid as IsValidRx}
use redpine_rs.Endpoint.SegmentRx.Lifetime.{Arrival, handle_all as handle_arrivals}
use redpine_rs.Endpoint.SegmentRx.Order.{sync-stuck}
use native.Mathlib.Nat.{dvd-mul_right}
use redpine_rs.Endpoint.SegmentTx.{SegmentTx, mark_sent as mark_segment_sent, leave_network}
use redpine_rs.Endpoint.SegmentTx.Transit.{
  IsCounted, sent, transit, moved, in_flight, mark_sent-IsCounted, leave_network-window,
}
use redpine_rs.TimerQueue.{test}
use redpine_rs.TimerQueue.Rounds.{alive, signalling, test-front}

extend-eq-extend_slow_example : extend 0 (72 ∷ 105 ∷ []) ≡ extend_slow 0 (72 ∷ 105 ∷ [])
extend-eq-extend_slow_example =
    extend-eq-extend_slow 0 (72 ∷ 105 ∷ []) (omega arith) (omega arith, (omega arith, tt))

abbrev sync_7 : StreamSync
sync_7 = record { next_segment_id = 7 }

abbrev nine : List ℕ
nine = replicate {A = ℕ} 9 0

simple_round_trip_example :
    (frame body : List ℕ) × (simple_write stream_sync_frame sync_7 nine ≡ done frame)
    × (verify_minimum_size frame ≡ true)
    × (verify_crc frame ≡ done true)
    × (read_type frame ≡ done (some stream_sync))
    × (payload frame ≡ done body)
    × (simple_read stream_sync_frame body ≡ done (some sync_7))
simple_round_trip_example =
    simple_round_trip stream_sync_frame stream_sync-IsLawful sync_7 nine (omega arith) (omega arith)
      (omega arith)

abbrev alpha_5 : HandshakeAlphaFrame
alpha_5 = record { protocol_id = 0; client_nonce = 5 }

write_handshake_alpha-verified_example :
    (buffer : List ℕ) × (write_handshake_alpha alpha_5 12 ≡ done buffer)
    × (verify_handshake_alpha_size_and_crc buffer 12 ≡ done true)
    × (read_type buffer ≡ done (some handshake_alpha))
write_handshake_alpha-verified_example =
    write_handshake_alpha-verified alpha_5 12 (omega arith, omega arith) (omega arith)

frame_of_accepted_example :
    (verify_minimum_size (frame_of stream_sync (1 ∷ 2 ∷ [])) ≡ true)
    × (verify_crc (frame_of stream_sync (1 ∷ 2 ∷ [])) ≡ done true)
    × (read_type (frame_of stream_sync (1 ∷ 2 ∷ [])) ≡ done (some stream_sync))
    × (payload (frame_of stream_sync (1 ∷ 2 ∷ [])) ≡ done (1 ∷ 2 ∷ []))
frame_of_accepted_example = frame_of_accepted stream_sync (1 ∷ 2 ∷ [])

datagram_read-IsRead_example : IsRead (1 ∷ 2 ∷ []) (datagram_read (1 ∷ 2 ∷ []))
datagram_read-IsRead_example = datagram_read-IsRead (1 ∷ 2 ∷ [])

abbrev two_bytes : Datagram
two_bytes = record { id = 300; unrel = true; first = true; last = false; bytes = 8 ∷ 9 ∷ [] }

datagram_round_trip_example :
    (written : List ℕ) × (datagram_write (replicate {A = ℕ} 12 0) two_bytes
      ≡ done (some (written, 9)))
    × (datagram_read written ≡ done (some (two_bytes, 9)))
datagram_round_trip_example =
    datagram_round_trip two_bytes (replicate {A = ℕ} 12 0) (omega arith, omega arith) (omega arith)

abbrev packet : List ℕ
packet = 1 ∷ 2 ∷ 3 ∷ 4 ∷ 5 ∷ []

abbrev HasArrived : ℕ → FragmentRef → Type 0
HasArrived id f = Unit

abbrev arrivals : List (ℕ × FragmentRef)
arrivals =
    (4, record { first = false; last = true; bytes = 7 ∷ [] })
    ∷ (5, record { first = true; last = true; bytes = 8 ∷ 9 ∷ [] })
    ∷ []

receive_each-IsWhole_example :
    All (IsWhole HasArrived) (receive_each (unreliable_building 2 4 none) arrivals).1
receive_each-IsWhole_example =
    receive_each-IsWhole HasArrived (unreliable_building 2 4 none) arrivals tt (tt, (tt, tt))

-- A queue with the three fragments of `packet`, the first two of them sent.
abbrev queue_in_flight : TxBuffer
queue_in_flight = record {
  fragments = split 2 packet;
  next_send_id = 12;
  max_ack_id = 12;
  fragment_size = 2;
  send_window = record { base_id = 10; size = 4 };
  duplicate_ack_count = 0;
}

queue_in_flight-IsValid : IsValidQueue queue_in_flight
unfolding split split_loop
queue_in_flight-IsValid = record {
  base_u32 = omega arith;
  next_u32 = omega arith;
  max_u32 = omega arith;
  size_u32 = omega arith;
  next_le_max = omega arith;
  max_le_length = omega arith;
  max_le_size = omega arith;
  few_duplicates = omega arith;
}

pop_sendable-IsValid_example : IsValidQueue (pop_sendable queue_in_flight).0
pop_sendable-IsValid_example = pop_sendable-IsValid queue_in_flight queue_in_flight-IsValid

-- Two duplicates counted, and two more.
abbrev queue_twice_acked : TxBuffer
queue_twice_acked = record queue_in_flight { duplicate_ack_count = 2 }

acknowledge_times-IsRepeated_example :
    (tx : TxBuffer) × (acknowledge_times 2 10 queue_twice_acked ≡ done tx)
    × IsRepeated 2 queue_twice_acked tx
acknowledge_times-IsRepeated_example =
    acknowledge_times-IsRepeated 2 queue_twice_acked (omega arith)

acknowledge-IsValid_example :
    (tx : TxBuffer) × (ok : Bool) × (acknowledge queue_in_flight 11 ≡ done (tx, ok))
    × IsValidQueue tx
acknowledge-IsValid_example =
    acknowledge-IsValid queue_in_flight 11 (omega arith) queue_in_flight-IsValid

acknowledge-IsWindowed_example :
    (tx : TxBuffer) × (ok : Bool) × (acknowledge queue_in_flight 11 ≡ done (tx, ok))
    × IsWindowed queue_in_flight 11 tx ok
acknowledge-IsWindowed_example =
    acknowledge-IsWindowed queue_in_flight 11 (omega arith) queue_in_flight-IsValid

abbrev one_entry : UnreliableTxBuffer
one_entry = record {
  fragments =
      record {
        fragment = record {
          first = true;
          last = true;
          bytes = packet;
          range_start = 0;
          range_end = 5;
        };
        expire_time_ms = 20;
      }
      ∷ [];
  next_fragment_id = 0;
  fragment_size = 9;
}

pop_expired-IsFresh_example :
    (dropped : List TxEntry) × (one_entry.fragments
      ≡ dropped ++ (pop_expired one_entry 30).fragments)
    × All (IsExpired 30) dropped
    × IsFresh 30 (pop_expired one_entry 30).fragments
pop_expired-IsFresh_example = pop_expired-IsFresh one_entry 30

handle_all-IsValid_example :
    (s : AimdReno) × ((aimd_reno 100 >>= handle_all (Event.ack ∷ Event.dropped ∷ Event.ack ∷ []))
      ≡ done s)
    × IsValidCwnd s
handle_all-IsValid_example =
    handle_all-IsValid 100 (Event.ack ∷ Event.dropped ∷ Event.ack ∷ []) (omega arith) (omega arith)

abbrev slow_start : AimdReno
slow_start = record {
  mode = Mode.unbounded_slow_start;
  mss_q16 = 65536;
  cwnd_q16 = 1310720;
  dropcnt_q16 = 0;
}

abbrev weights_of_tests : Array4
weights_of_tests = record { at0 = 1; at1 = 1; at2 = 2; at3 = 8 }

config-IsValid_example :
    (c : Config) × (config weights_of_tests 10 ≡ done c)
    × (c.counter_max ≡ 10 * product4 weights_of_tests)
    × IsValidPrio (prio c)
config-IsValid_example = config-IsValid weights_of_tests 10 (record {
  weight0 = (omega arith, omega arith);
  weight1 = (omega arith, omega arith);
  weight2 = (omega arith, omega arith);
  weight3 = (omega arith, omega arith);
  product = omega arith;
  burst = (omega arith, omega arith);
})

abbrev some_sent : Prio
some_sent = record {
  counters = record { at0 = 16; at1 = 0; at2 = 8; at3 = 2 };
  weights = record { at0 = 16; at1 = 16; at2 = 8; at3 = 2 };
  counter_max = 160;
}

next-IsLeast_example :
    IsLeast some_sent.counters (ready true false true true) (next some_sent true false true true)
next-IsLeast_example = next-IsLeast some_sent true false true true

mark_sent-IsRaised_example :
    (p : Prio) × (mark_sent some_sent 0 10 ≡ done p) × IsRaised some_sent 0 10 p × IsValidPrio p
mark_sent-IsRaised_example = mark_sent-IsRaised some_sent 0 10 (omega arith) (omega arith) (record {
  weights = (omega arith, omega arith, omega arith, omega arith);
  max_bound = omega arith;
  counters = (omega arith, omega arith, omega arith, omega arith);
})

-- A receiver that waits for segment 200, with segment 202 in its first slot.
abbrev waiting : SegmentRx
waiting = record {
  window = record { base_id = 200; size = 128 };
  slot_0 = record { id = 202; nonce = true; bytes = 1 ∷ 2 ∷ 3 ∷ []; len = 2 };
  slot_1 = record { id = 0; nonce = false; bytes = 0 ∷ 0 ∷ 0 ∷ []; len = 0 };
  len = 1;
  rx_history = 31;
  nonce_history = 5;
}

-- Segment 7 before segment 5, then a sync past both.
abbrev out_of_order : List Arrival
out_of_order =
    Arrival.segment 7 true (1 ∷ []) ∷ Arrival.segment 5 false (2 ∷ 3 ∷ []) ∷ Arrival.synced 9 ∷ []

abbrev empty : SegmentRx
empty = record waiting { len = 0 }

sync-stuck_example : sync empty 205 ≡ (empty, [])
sync-stuck_example = sync-stuck empty 205 refl (omega arith)

-- Timers at the odd addresses are alive and have expired.
abbrev upgrade_odd : ℕ → Option Bool
upgrade_odd address = if address % 2 == 1 then some true else none

test-front_example :
    test upgrade_odd (λ b. b) 2 (1 ∷ 2 ∷ 3 ∷ [])
    ≡ done (
      drop 2 (1 ∷ 2 ∷ 3 ∷ []) ++ alive upgrade_odd (λ b. b) (take 2 (1 ∷ 2 ∷ 3 ∷ [])),
      signalling upgrade_odd (λ b. b) (take 2 (1 ∷ 2 ∷ 3 ∷ [])),
    )
test-front_example = test-front upgrade_odd (λ b. b) 2 (1 ∷ 2 ∷ 3 ∷ [])

-- A sender with the id before the last, and a ring of 64 places.
abbrev fresh : SegmentTx
fresh = record {
  base_id = 4294967294;
  next_id = 4294967294;
  size = 64;
  transit_buf = replicate {A = ℕ} 64 0;
  transit_buf_mask = 63;
  nonce_buf = 0 ∷ [];
  nonce_buf_mask = 0;
  transit_total = 0;
  ack_history = 4294967295;
  nonce_history = 0;
}

fresh-IsCounted : IsCounted 6 fresh
unfolding transit
fresh-IsCounted = record {
  ring = record {
    size_lem = refl;
    divides = dvd-mul_right (2 ^ 6) (2 ^ 26);
    mask_lem = refl;
    buf_lem = refl;
    size_u32 = omega arith;
    base_u32 = omega arith;
    next_u32 = omega arith;
  };
  room = omega arith;
  total = refl;
}

mark_sent-IsCounted_example :
    (mark_segment_sent fresh 5 ≡ done (sent fresh 5)) × IsCounted 6 (sent fresh 5)
mark_sent-IsCounted_example =
    mark_sent-IsCounted 6 fresh 5 fresh-IsCounted (omega arith) (omega arith)

abbrev one_out : SegmentTx
one_out = sent fresh 5

leave_network-window_example :
    leave_network one_out 0 1 5
    ≡ done (transit (moved one_out 4294967295) 0 (in_flight (moved one_out 4294967295)))
leave_network-window_example =
    leave_network-window 6 one_out 4294967295
      (mark_sent-IsCounted 6 fresh 5 fresh-IsCounted (omega arith) (omega arith)).1 (omega arith)
      (omega arith) (omega arith)
