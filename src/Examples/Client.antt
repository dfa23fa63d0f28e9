-- ===== src/Examples/Client.antt =====
-- The theorems about the client, alone and with a server, at concrete inputs.
use redpine_rs.Frame.Envelope.{
  write_handshake_alpha, frame_writer, frame_write, finalize, type_bits,
}
use redpine_rs.Frame.Io.{
  write_u8, write_u16, write_u32, write_slice, store, be_bytes_u16, be_bytes_u32,
}
use redpine_rs.Frame.Block.{block_serial, write_handshake_alpha_body}
use redpine_rs.Frame.Crc.{compute, extend, extend_byte, partial_results}
use redpine_rs.Client.Operations.{apply}
use redpine_rs.Client.Polling.{poll_event, poll_round, handle_frames, pop_event}
use redpine_rs.Client.Handling.{
  process_timeouts, process_timer, process_timeout, retry_handshake, enqueue, enqueue_in,
  disconnect, disconnect_in,
}
use redpine_rs.Common.{
  false, ℕ, ◌≡◌, refl, ◌++◌, ◌∷◌, [], none, some, List, arith, map, done, get_elem?,
}
use redpine_rs.Interface.{timeout}
use redpine_rs.Endpoint.Connection.{default_balance, prio_config, Endpoint, StateId}
use redpine_rs.Endpoint.Connection.Quiet.{fresh}
use redpine_rs.Endpoint.FragmentQueues.{reliable}
use redpine_rs.Client.{
  Config, ClientCore, Event, error, quiescent, default_config, connect_with_config, validate,
}
use redpine_rs.Client
use redpine_rs.Endpoint.Prio
use redpine_rs.Endpoint.Connection
use native.Mathlib.Decide.{ℕ_discrete}
use redpine_rs.Client.Lifecycle.{run_events, phase_in}
use redpine_rs.Client.Operations.{Operation, enqueue_packet, disconnect_at, apply_all}
use redpine_rs.Client.Silence.{silent, connect_with_config-gives_up}
use redpine_rs.Client.Ordered.{apply_all-IsOrdered}
use redpine_rs.Client.Handling.{handle_frame}
use redpine_rs.Server.{ServerCore, Peer, bind_with_config}
use redpine_rs.Server
use redpine_rs.Server.Table.{contains_key, get}
use redpine_rs.Server.Frames.{handle_server_frame}
use redpine_rs.Session.{handshake-connects}
use redpine_rs.Examples.Connection.{eighths, draws, result_or}
use redpine_rs.Examples.Server.{sum_mac}

default_valid : validate default_config ≡ done tt
unfolding validate Connection.validate prio_config Prio.config
default_valid = refl

connect_with_config-gives_up_example :
    (client client' : ClientCore ℕ) × (connect_with_config default_config 77 ≡ done client)
    × (apply_all draws (map silent (2500 ∷ 6000 ∷ 12000 ∷ [])) [] client
        ≡ done (error timeout ∷ [], client'))
    × (client'.state ≡ quiescent)
    × (client'.events ≡ [])
connect_with_config-gives_up_example =
    connect_with_config-gives_up draws default_config 77 (2500 ∷ 6000 ∷ []) 12000 6000 default_valid
      (omega arith) (omega arith) (omega arith) (omega arith) (omega arith)

abbrev story : List Operation
story =
    enqueue_packet (1 ∷ 2 ∷ []) reliable 5 ∷ silent 2500 ∷ disconnect_at 2600 ∷ silent 12000 ∷ []

abbrev spare : ClientCore ℕ
spare = record {
  config = default_config;
  sent = [];
  draws = 0;
  state = quiescent;
  rto_timer = none;
  events = [];
}

abbrev opened : ClientCore ℕ
opened = result_or (connect_with_config default_config 77) spare

abbrev closed : List Event × ClientCore ℕ
closed = result_or (apply_all draws story [] opened) ([], spare)

opened_lem : connect_with_config default_config 77 ≡ done opened
unfolding connect_with_config validate Connection.validate prio_config Prio.config
    write_handshake_alpha be_bytes_u16 be_bytes_u32 frame_writer frame_write finalize write_u8
    write_u16 write_u32 write_slice store block_serial write_handshake_alpha_body type_bits compute
    extend extend_byte partial_results
opened_lem = refl

closed_lem : apply_all draws story [] opened ≡ done closed
unfolding connect_with_config validate Connection.validate prio_config Prio.config
    write_handshake_alpha be_bytes_u16 be_bytes_u32 frame_writer frame_write finalize write_u8
    write_u16 write_u32 write_slice store block_serial write_handshake_alpha_body type_bits compute
    extend extend_byte partial_results apply_all apply poll_event poll_round handle_frames
    process_timeouts process_timer process_timeout pop_event retry_handshake enqueue enqueue_in
    disconnect disconnect_in
closed_lem = refl

apply_all-IsOrdered_example :
    run_events fresh (closed.0 ++ closed.1.events) ≡ some (phase_in closed.1.state)
apply_all-IsOrdered_example =
    apply_all-IsOrdered draws default_config 77 story closed.0 opened closed.1 opened_lem closed_lem

abbrev empty_server : ServerCore ℕ ℕ
empty_server = record {
  config = Server.default_config;
  sent = [];
  peers = [];
  heap = [];
  timer_queue = [];
  events = [];
  handles = [];
  draws = 0;
}

default_balance_valid : Connection.validate default_balance ≡ done tt
unfolding Connection.validate prio_config Prio.config
default_balance_valid = refl

no_peer : contains_key ℕ_discrete 9 empty_server.peers ≡ false
unfolding contains_key
no_peer = refl

handshake-connects_example :
    (client0 client1 client2 : ClientCore ℕ) × (server1 server2 : ServerCore ℕ ℕ) × (hello answer
      request admission : List ℕ)
    × (ep : Endpoint ℕ) × (peer : Peer ℕ ℕ) × (connect_with_config default_config 77 ≡ done client0)
    × (client0.sent ≡ hello ∷ [])
    × (handle_server_frame ℕ_discrete sum_mac draws hello 9 1234 10 empty_server ≡ done server1)
    × (server1 ≡ record empty_server { sent = (answer, 9) ∷ [] })
    × (handle_frame draws answer 20 client0 ≡ done client1)
    × (client1.sent ≡ hello ∷ request ∷ [])
    × (handle_server_frame ℕ_discrete sum_mac draws request 9 0 30 server1 ≡ done server2)
    × (server2.sent ≡ server1.sent ++ (admission, 9) ∷ [])
    × (handle_frame draws admission 40 client1 ≡ done client2)
    × (client2.state ≡ Client.active ep)
    × (ep.state_id ≡ StateId.active)
    × (client2.events ≡ Client.connect ∷ [])
    × (get ℕ_discrete 9 server2.peers ≡ some 0)
    × (get_elem? server2.heap 0 ≡ some peer)
    × (peer.addr ≡ 9)
    × (peer.endpoint.state_id ≡ StateId.active)
    × (server2.events ≡ Server.connect 0 ∷ [])
handshake-connects_example =
    handshake-connects ℕ_discrete sum_mac draws default_config 77 1234 0 9 empty_server 10 20 30 40
      default_valid (omega arith) (omega arith) (λ timestamp. omega arith) default_balance_valid
      no_peer (omega arith) (omega arith)
