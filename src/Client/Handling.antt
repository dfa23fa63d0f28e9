-- ===== src/Client/Handling.antt =====
-- What a client does with frames, timeouts and the program's calls (client.rs). The `match` on the
-- state in each method is a function by clauses.
use redpine_rs.Common.{
  ℕ, ◌∷◌, [], ◌++◌, ◌&&◌, Bool, none, some, Option, List, leb, ◌==◌, if◌then◌else◌, Run, done,
  ◌>>=◌,
}
use redpine_rs.Interface.{ErrorKind, timeout}
use redpine_rs.Frame.{
  FrameType, HandshakeErrorKind, HandshakeAlphaAckFrame, HandshakeBetaFrame, HandshakeBetaAckFrame,
  handshake_alpha_ack, handshake_beta_ack, capacity, parameter,
}
use redpine_rs.Frame.Envelope.{
  verify_minimum_size, verify_crc, read_type, payload, simple_read, write_boxed,
}
use redpine_rs.Frame.Envelope.Simple.{
  handshake_alpha_ack_frame, handshake_beta_frame, handshake_beta_ack_frame,
}
use redpine_rs.Endpoint.Float.{Float}
use redpine_rs.Endpoint.FragmentQueues.{SendMode}
use redpine_rs.Endpoint.Connection.{
  Endpoint, TimeoutAction, continue, terminate, later, endpoint, init, prio_config,
}
use redpine_rs.Endpoint.Connection
use redpine_rs.Endpoint.Connection.Handling as Endpoints
use redpine_rs.Endpoint.Connection.Timeout.{handle_rto_timer}
use redpine_rs.Client.{
  ClientCore, State, HandshakeState, HandshakePhase, alpha, beta, handshake, active, quiescent,
  error, send_bytes, push_event, context, resume, client_params, connection_params_compatible,
  handshake_resend_timeout_ms,
}

-- The request that answers an alpha ack
unfoldable pub beta_request : HandshakeAlphaAckFrame → HandshakeBetaFrame
beta_request frame = record {
  client_params = client_params;
  client_nonce = frame.client_nonce;
  server_nonce = frame.server_nonce;
  server_timestamp = frame.server_timestamp;
  server_mac = frame.server_mac;
}

unfoldable pub error_kind : HandshakeErrorKind → ErrorKind
error_kind capacity = ErrorKind.capacity
error_kind parameter = ErrorKind.parameter

module _ {F : Type 0} where
  -- A handshake that has run out of time, or that sends its frame again
  unfoldable pub retry_handshake : HandshakeState → ℕ → ClientCore F → ClientCore F
  retry_handshake state now_ms client =
      if leb state.timeout_time_ms now_ms
      then record (push_event (error timeout) client) { state = quiescent }
      else send_bytes state.frame
          (record client { rto_timer = some (later now_ms handshake_resend_timeout_ms) })

  unfoldable pub settle : TimeoutAction → ClientCore F → ClientCore F
  settle continue client = client
  settle terminate client = record client { state = quiescent }

  -- A valid answer to the first frame
  unfoldable pub accept_alpha_ack :
      Option HandshakeAlphaAckFrame → HandshakeState → ℕ → ClientCore F → Run (ClientCore F)
  unfolding beta_request
  accept_alpha_ack none state now_ms client = done client
  accept_alpha_ack (some frame) state now_ms client =
      if frame.client_nonce == state.local_nonce
        && connection_params_compatible client_params frame.server_params
      then (do
        request ← write_boxed handshake_beta_frame (beta_request frame)
        done (
            send_bytes request (record client {
              state = handshake (record state {
                phase = beta;
                timeout_time_ms = later now_ms state.timeout_ms;
                frame = request;
              });
              rto_timer = some (later now_ms handshake_resend_timeout_ms);
            })))
      else done client

  unfoldable pub alpha_ack_in :
      HandshakePhase → List ℕ → HandshakeState → ℕ → ClientCore F → Run (ClientCore F)
  unfolding accept_alpha_ack
  alpha_ack_in alpha payload_bytes state now_ms client = do
    read ← simple_read handshake_alpha_ack_frame payload_bytes
    accept_alpha_ack read state now_ms client
  alpha_ack_in beta payload_bytes state now_ms client = done client

  unfoldable pub handle_handshake_alpha_ack_in :
      State F → List ℕ → ℕ → ClientCore F → Run (ClientCore F)
  unfolding alpha_ack_in
  handle_handshake_alpha_ack_in (handshake state) payload_bytes now_ms client =
      alpha_ack_in state.phase payload_bytes state now_ms client
  handle_handshake_alpha_ack_in (active ep) payload_bytes now_ms client = done client
  handle_handshake_alpha_ack_in quiescent payload_bytes now_ms client = done client

  unfoldable pub handle_handshake_alpha_ack : List ℕ → ℕ → ClientCore F → Run (ClientCore F)
  unfolding handle_handshake_alpha_ack_in
  handle_handshake_alpha_ack payload_bytes now_ms client =
      handle_handshake_alpha_ack_in client.state payload_bytes now_ms client

  unfoldable pub enqueue_all : List (List ℕ × SendMode) → ℕ → Endpoint F → Endpoint F
  enqueue_all [] now_ms ep = ep
  enqueue_all ((packet, mode) ∷ rest) now_ms ep =
      enqueue_all rest now_ms (Connection.enqueue ep packet mode now_ms)

  module _ (random : ℕ → Bool) where
    -- The connection is made: the endpoint starts with the packets that were kept.
    unfoldable pub start : HandshakeState → ℕ → ClientCore F → Run (ClientCore F)
    unfolding enqueue_all resume
    start state now_ms client = do
      let ready : ClientCore F = record client { rto_timer = none }
      prio ← prio_config client.config.channel_balance
      ep ←
          endpoint
            (record { timeout_time_ms = client.config.connection_timeout_ms; prio_config = prio })
      (ep1, host1) ← init ep (context ready)
      (ep2, host2) ←
          Endpoints.flush random now_ms (enqueue_all state.packet_buffer now_ms ep1) host1
      done (resume ep2 host2 ready)

    unfoldable pub accept_beta_ack :
        Option HandshakeErrorKind → HandshakeState → ℕ → ClientCore F → Run (ClientCore F)
    unfolding start error_kind
    accept_beta_ack none state now_ms client = start state now_ms client
    accept_beta_ack (some kind) state now_ms client =
        done (record (push_event (error (error_kind kind)) client) { state = quiescent })

    unfoldable pub read_beta_ack :
        Option HandshakeBetaAckFrame → HandshakeState → ℕ → ClientCore F → Run (ClientCore F)
    unfolding accept_beta_ack
    read_beta_ack none state now_ms client = done client
    read_beta_ack (some frame) state now_ms client =
        if frame.client_nonce == state.local_nonce
        then accept_beta_ack frame.error state now_ms client
        else done client

    unfoldable pub beta_ack_in :
        HandshakePhase → List ℕ → HandshakeState → ℕ → ClientCore F → Run (ClientCore F)
    unfolding read_beta_ack
    beta_ack_in alpha payload_bytes state now_ms client = done client
    beta_ack_in beta payload_bytes state now_ms client = do
      read ← simple_read handshake_beta_ack_frame payload_bytes
      read_beta_ack read state now_ms client

    unfoldable pub handle_handshake_beta_ack_in :
        State F → List ℕ → ℕ → ClientCore F → Run (ClientCore F)
    unfolding beta_ack_in
    handle_handshake_beta_ack_in (handshake state) payload_bytes now_ms client =
        beta_ack_in state.phase payload_bytes state now_ms client
    handle_handshake_beta_ack_in (active ep) payload_bytes now_ms client = done client
    handle_handshake_beta_ack_in quiescent payload_bytes now_ms client = done client

    unfoldable pub handle_handshake_beta_ack : List ℕ → ℕ → ClientCore F → Run (ClientCore F)
    unfolding handle_handshake_beta_ack_in
    handle_handshake_beta_ack payload_bytes now_ms client =
        handle_handshake_beta_ack_in client.state payload_bytes now_ms client

    -- `flush` and `disconnect`, by the state
    unfoldable pub flush_in : State F → ℕ → ClientCore F → Run (ClientCore F)
    unfolding resume
    flush_in (handshake state) now_ms client = done client
    flush_in quiescent now_ms client = done client
    flush_in (active ep) now_ms client = do
      (ep', host) ← Endpoints.flush random now_ms ep (context client)
      done (resume ep' host client)

    unfoldable pub flush : ℕ → ClientCore F → Run (ClientCore F)
    unfolding flush_in
    flush now_ms client = flush_in client.state now_ms client

    unfoldable pub send_in : State F → List ℕ → SendMode → ℕ → ClientCore F → Run (ClientCore F)
    unfolding resume
    send_in (handshake state) packet_bytes mode now_ms client = done (record client {
      state =
          handshake
            (record state { packet_buffer = state.packet_buffer ++ (packet_bytes, mode) ∷ [] });
    })
    send_in quiescent packet_bytes mode now_ms client = done client
    send_in (active ep) packet_bytes mode now_ms client = do
      (ep', host) ←
          Endpoints.flush random now_ms (Connection.enqueue ep packet_bytes mode now_ms)
            (context client)
      done (resume ep' host client)

    unfoldable pub send : List ℕ → SendMode → ℕ → ClientCore F → Run (ClientCore F)
    unfolding send_in
    send packet_bytes mode now_ms client = send_in client.state packet_bytes mode now_ms client

  unfoldable pub enqueue_in : State F → List ℕ → SendMode → ℕ → ClientCore F → ClientCore F
  enqueue_in (handshake state) packet_bytes mode now_ms client = record client {
    state =
        handshake
          (record state { packet_buffer = state.packet_buffer ++ (packet_bytes, mode) ∷ [] });
  }
  enqueue_in (active ep) packet_bytes mode now_ms client = record client {
    state = active (Connection.enqueue ep packet_bytes mode now_ms);
  }
  enqueue_in quiescent packet_bytes mode now_ms client = client

  unfoldable pub enqueue : List ℕ → SendMode → ℕ → ClientCore F → ClientCore F
  unfolding enqueue_in
  enqueue packet_bytes mode now_ms client = enqueue_in client.state packet_bytes mode now_ms client

  unfoldable pub disconnect_in : State F → ℕ → ClientCore F → Run (ClientCore F)
  unfolding resume
  disconnect_in (handshake state) now_ms client = done client
  disconnect_in quiescent now_ms client = done client
  disconnect_in (active ep) now_ms client = do
    (ep', host) ← Endpoints.disconnect now_ms ep (context client)
    done (resume ep' host client)

  unfoldable pub disconnect : ℕ → ClientCore F → Run (ClientCore F)
  unfolding disconnect_in
  disconnect now_ms client = disconnect_in client.state now_ms client

  module _ ⦃f : Float F⦄ (random : ℕ → Bool) where
    unfoldable pub process_timeout : State F → ℕ → ClientCore F → Run (ClientCore F)
    unfolding retry_handshake settle resume
    process_timeout (handshake state) now_ms client = done (retry_handshake state now_ms client)
    process_timeout (active ep) now_ms client = do
      (ep', host, action) ← handle_rto_timer random now_ms ep (context client)
      done (settle action (resume ep' host client))
    process_timeout quiescent now_ms client = done client

    -- `if let Some(timeout_ms)`: a timer that has expired is taken away before it is handled
    unfoldable pub process_timer : Option ℕ → ℕ → ClientCore F → Run (ClientCore F)
    unfolding process_timeout
    process_timer none now_ms client = done client
    process_timer (some timeout_ms) now_ms client =
        if leb timeout_ms now_ms
        then process_timeout client.state now_ms (record client { rto_timer = none })
        else done client

    unfoldable pub process_timeouts : ℕ → ClientCore F → Run (ClientCore F)
    unfolding process_timer
    process_timeouts now_ms client = process_timer client.rto_timer now_ms client

    unfoldable pub handle_frame_other_in :
        State F → FrameType → List ℕ → ℕ → ClientCore F → Run (ClientCore F)
    unfolding resume
    handle_frame_other_in (handshake state) frame_type payload_bytes now_ms client = done client
    handle_frame_other_in quiescent frame_type payload_bytes now_ms client = done client
    handle_frame_other_in (active ep) frame_type payload_bytes now_ms client = do
      (ep', host) ←
          Endpoints.handle_frame random frame_type payload_bytes now_ms ep (context client)
      done (resume ep' host client)

    unfoldable pub handle_frame_other : FrameType → List ℕ → ℕ → ClientCore F → Run (ClientCore F)
    unfolding handle_frame_other_in
    handle_frame_other frame_type payload_bytes now_ms client =
        handle_frame_other_in client.state frame_type payload_bytes now_ms client

    -- The `match` on the type of a frame
    unfoldable pub dispatch : FrameType → List ℕ → ℕ → ClientCore F → Run (ClientCore F)
    unfolding handle_handshake_alpha_ack handle_handshake_beta_ack handle_frame_other
    dispatch handshake_alpha_ack payload_bytes now_ms client =
        handle_handshake_alpha_ack payload_bytes now_ms client
    dispatch handshake_beta_ack payload_bytes now_ms client =
        handle_handshake_beta_ack random payload_bytes now_ms client
    dispatch frame_type payload_bytes now_ms client =
        handle_frame_other frame_type payload_bytes now_ms client

    unfoldable pub handle_typed : Option FrameType → List ℕ → ℕ → ClientCore F → Run (ClientCore F)
    unfolding dispatch
    handle_typed none frame_bytes now_ms client = done client
    handle_typed (some frame_type) frame_bytes now_ms client = do
      valid ← verify_crc frame_bytes
      (if valid
          then (do
            payload_bytes ← payload frame_bytes
            dispatch frame_type payload_bytes now_ms client)
          else done client)

    unfoldable pub handle_frame : List ℕ → ℕ → ClientCore F → Run (ClientCore F)
    unfolding handle_typed
    handle_frame frame_bytes now_ms client =
        if verify_minimum_size frame_bytes
        then (do
          frame_type ← read_type frame_bytes
          handle_typed frame_type frame_bytes now_ms client)
        else done client
