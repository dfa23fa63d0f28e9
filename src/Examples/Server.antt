-- ===== src/Examples/Server.antt =====
-- The theorems about the server at concrete inputs: addresses are numbers, and a sum stands for the
-- hash.
use redpine_rs.Frame.{HandshakeBetaFrame}
use redpine_rs.Frame.Envelope.{write_boxed}
use redpine_rs.Frame.Envelope.Simple.{handshake_beta_frame}
use redpine_rs.Endpoint.Prio
use redpine_rs.Endpoint.Connection
use redpine_rs.Endpoint.Connection.{prio_config}
use redpine_rs.Server.{ServerCore, default_config, bind_with_config, validate}
use redpine_rs.Server.Operations.{Operation, poll, disconnect_from, apply_all, apply_all-IsSound}
use redpine_rs.Server.Sound.{IsSound}
use redpine_rs.Examples.Connection.{eighths, draws, result_or}
use native.Mathlib.Decide.{ℕ_discrete}
use redpine_rs.Server.Polling.{poll_event}
use redpine_rs.Server.Peers.{disconnect_peer}
use redpine_rs.Server.Frames.{handle_server_frame}
use redpine_rs.Server.Timers.{handle_timeouts}
use redpine_rs.Server.Handshake.{server_params, connection_params_compatible}
use redpine_rs.Server.Table.{contains_key}
use redpine_rs.Frame.Envelope.{
  frame_writer, frame_write, finalize, verify_handshake_beta_size_and_crc, simple_write, type_bits,
  payload_read, type_of_bits,
}
use redpine_rs.Frame.Io.{
  write_u8, write_slice, store, write_u32, be_bytes_u32, write_u64, be_bytes_u64, read_u32, be_u32,
  read_u64, be_u64,
}
use redpine_rs.Frame.Block.{
  block_serial, write_handshake_beta, read_handshake_beta, write_handshake_beta_ack, write_close,
}
use redpine_rs.Frame.Crc.{compute, extend, extend_byte, partial_results}
use redpine_rs.Endpoint.Connection.{endpoint, init}
use redpine_rs.Endpoint.Connection.Handling.{disconnect}
use redpine_rs.Endpoint.SegmentTx.{segment_tx}
use redpine_rs.Endpoint.FragmentQueues.{fragment_queues}
use redpine_rs.Endpoint.AimdReno.{aimd_reno}
use redpine_rs.Buffer.Reliable
use redpine_rs.Buffer.Unreliable
use redpine_rs.Common.{[], ◌∷◌, ℕ, ◌+◌, ◌*◌, ◌%◌, ◌^◌, ◌≡◌, refl, true, some, List, arith, done}
use redpine_rs.Frame.{
  ConnectionParams, HandshakeAlphaFrame, HandshakeAlphaAckFrame, handshake_alpha_ack,
}
use redpine_rs.Frame.Envelope.{
  verify_minimum_size, verify_crc, read_type, payload, simple_read, write_handshake_alpha,
}
use redpine_rs.Frame.Envelope.Simple.{handshake_alpha_ack_frame}
use redpine_rs.Server.Handshake.{server_params, handle_handshake_alpha, beta_is_valid}
use redpine_rs.Server.Handshake.Alpha.{echo, handle_handshake_alpha-answers}

abbrev pub sum_mac : ℕ → ℕ → ℕ → ℕ → ℕ
sum_mac address client_nonce server_nonce timestamp =
    (address + 3 * client_nonce + 5 * server_nonce + 7 * timestamp) % 2 ^ 64

abbrev hello : HandshakeAlphaFrame
hello = record { protocol_id = 0; client_nonce = 77 }

abbrev limits : ConnectionParams
limits = record { packet_size_in_max = 1000; packet_size_out_max = 1000 }

handle_handshake_alpha-answers_example :
    (request reply body : List ℕ) × (ack : HandshakeAlphaAckFrame) × (write_handshake_alpha hello
        1472
      ≡ done request)
    × (handle_handshake_alpha sum_mac request 9 1234 4294967290 ≡ done (some reply))
    × (verify_minimum_size reply ≡ true)
    × (verify_crc reply ≡ done true)
    × (read_type reply ≡ done (some handshake_alpha_ack))
    × (payload reply ≡ done body)
    × (simple_read handshake_alpha_ack_frame body ≡ done (some ack))
    × (ack.client_nonce ≡ 77)
    × (beta_is_valid sum_mac (echo ack limits) 9 4294967300 ≡ true)
handle_handshake_alpha-answers_example =
    handle_handshake_alpha-answers sum_mac hello 9 1234 4294967290 4294967300 limits refl
      (omega arith) (omega arith) (λ timestamp. omega arith)

-- A second request with the right MAC, and then some bytes that are no frame.
abbrev knock : HandshakeBetaFrame
knock = record {
  client_params = server_params;
  client_nonce = 77;
  server_nonce = 1234;
  server_timestamp = 10;
  server_mac = sum_mac 9 77 1234 10;
}

abbrev knock_bytes : List ℕ
knock_bytes = result_or (write_boxed handshake_beta_frame knock) []

abbrev rounds : List (Operation ℕ)
rounds =
    poll (record {
      frames =
          record { frame_bytes = knock_bytes; sender_addr = 9; server_nonce = 0; now_ms = 30 }
          ∷ record { frame_bytes = 1 ∷ 2 ∷ []; sender_addr = 8; server_nonce = 0; now_ms = 31 }
          ∷ [];
      now_ms = 40;
      clock = λ r. 40;
      elapsed_ms = 0;
    })
    ∷ disconnect_from 0 50
    ∷ []

abbrev spare_server : ServerCore ℕ ℕ
spare_server = record {
  config = default_config;
  sent = [];
  peers = [];
  heap = [];
  timer_queue = [];
  events = [];
  handles = [];
  draws = 0;
}

abbrev ran : ServerCore ℕ ℕ
ran = result_or (apply_all ℕ_discrete sum_mac draws rounds spare_server) spare_server

bound_lem : bind_with_config default_config ≡ done spare_server
unfolding bind_with_config validate Connection.validate prio_config Prio.config
bound_lem = refl

ran_lem : apply_all ℕ_discrete sum_mac draws rounds spare_server ≡ done ran
unfolding apply_all poll_event disconnect_peer handle_server_frame handle_timeouts beta_is_valid
    connection_params_compatible contains_key verify_minimum_size write_boxed frame_writer
    frame_write finalize verify_handshake_beta_size_and_crc payload simple_read simple_write
    read_type type_bits payload_read type_of_bits verify_crc write_u8 write_slice store write_u32
    be_bytes_u32 write_u64 be_bytes_u64 read_u32 be_u32 read_u64 be_u64 block_serial
    write_handshake_beta read_handshake_beta write_handshake_beta_ack write_close compute extend
    extend_byte partial_results endpoint init prio_config disconnect segment_tx fragment_queues
    aimd_reno Prio.config Unreliable.tx_buffer Reliable.tx_buffer Unreliable.rx_buffer
    Reliable.rx_buffer ℕ_discrete
ran_lem = refl

apply_all-IsSound_example : IsSound ran
apply_all-IsSound_example =
    apply_all-IsSound ℕ_discrete sum_mac draws default_config rounds spare_server ran bound_lem
      ran_lem
