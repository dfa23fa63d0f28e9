-- ===== src/Server/Frames.antt =====
-- The frames that a server receives (server/mod.rs). Addresses are compared by `same`, and `compute`
-- is the hash of server/handshake_mac.rs. `now_ms` is the clock as the handler of the frame reads it:
-- the server's reading for the two frames of a handshake, and for any other frame, to which the
-- server passes no time, the reading of the peer (`handle_frame` of server/peer.rs).
use redpine_rs.Common.{
  ℕ, List, [], ◌∷◌, ◌++◌, Bool, not, Option, none, some, leb, if◌then◌else◌, Run, done, ◌>>=◌,
  length, replicate,
}
use redpine_rs.Frame.{
  FrameType, HandshakeErrorKind, HandshakeBetaFrame, handshake_alpha, handshake_beta, capacity,
  parameter,
}
use redpine_rs.Frame.Envelope.{
  verify_handshake_beta_size_and_crc, verify_minimum_size, verify_crc, read_type, payload,
  simple_read, simple_write, frame_size,
}
use redpine_rs.Frame.Envelope.Simple.{handshake_beta_frame, handshake_beta_ack_frame}
use redpine_rs.Endpoint.Float.{Float}
use redpine_rs.Endpoint.Connection.{prio_config}
use redpine_rs.TimerQueue.{add_timer}
use redpine_rs.Server.{ServerCore}
use redpine_rs.Server.Handshake.{
  handle_handshake_alpha, beta_is_valid, server_params, connection_params_compatible,
}
use redpine_rs.Server.Table.{get, contains_key, insert}
use redpine_rs.Server.Peers.{new_peer, init, handle_frame}

module _ {Addr F : Type 0} (same : Discrete Addr) (compute : Addr → ℕ → ℕ → ℕ → ℕ) where
  -- A new peer, in the table and among the timers
  unfoldable pub add_peer : Addr → ServerCore Addr F → Run (ServerCore Addr F)
  unfolding new_peer init insert
  add_peer sender_addr server = do
    prio ← prio_config server.config.channel_balance
    peer ←
        new_peer sender_addr
          (record { timeout_time_ms = server.config.connection_timeout_ms; prio_config = prio })
    let peer_ref = length server.heap
    init peer_ref (record server {
      heap = server.heap ++ peer ∷ [];
      peers = insert same sender_addr peer_ref server.peers;
      timer_queue = add_timer server.timer_queue peer_ref;
    })

  -- The error that a valid request is answered with, and the server after it
  unfoldable pub admit :
      HandshakeBetaFrame
      → Addr
      → ServerCore Addr F
      → Run (Option HandshakeErrorKind × ServerCore Addr F)
  unfolding add_peer
  admit frame sender_addr server =
      if contains_key same sender_addr server.peers
      then done (none, server)
      else if leb server.config.peer_count_max (length server.peers)
      then done (some capacity, server)
      else if not (connection_params_compatible frame.client_params server_params)
      then done (some parameter, server)
      else (do server' ← add_peer sender_addr server; done (none, server'))

  unfoldable pub answer_beta :
      Option HandshakeBetaFrame → Addr → ℕ → ServerCore Addr F → Run (ServerCore Addr F)
  unfolding admit
  answer_beta none sender_addr now_ms server = done server
  answer_beta (some frame) sender_addr now_ms server =
      if beta_is_valid compute frame sender_addr now_ms
      then (do
        (error, server') ← admit frame sender_addr server
        ack_frame_bytes ←
            simple_write handshake_beta_ack_frame
              (record { error = error; client_nonce = frame.client_nonce })
              (replicate {A = ℕ} (frame_size handshake_beta_ack_frame) 0)
        done (record server' { sent = server'.sent ++ (ack_frame_bytes, sender_addr) ∷ [] }))
      else done server

  unfoldable pub handle_handshake_beta :
      List ℕ → Addr → ℕ → ServerCore Addr F → Run (ServerCore Addr F)
  unfolding answer_beta
  handle_handshake_beta frame_bytes sender_addr now_ms server = do
    valid ← verify_handshake_beta_size_and_crc frame_bytes
    (if valid
        then (do
          payload_bytes ← payload frame_bytes
          read ← simple_read handshake_beta_frame payload_bytes
          answer_beta read sender_addr now_ms server)
        else done server)

  -- What `handle_handshake_alpha` sends
  abbrev pub reply : Option (List ℕ) → Addr → ServerCore Addr F → ServerCore Addr F
  reply none sender_addr server = server
  reply (some bytes) sender_addr server = record server {
    sent = server.sent ++ (bytes, sender_addr) ∷ [];
  }

  module _ ⦃f : Float F⦄ (random : ℕ → Bool) where
    -- A frame for the peer that has the address, if there is one
    unfoldable pub deliver :
        Option ℕ → FrameType → List ℕ → ℕ → ServerCore Addr F → Run (ServerCore Addr F)
    unfolding handle_frame
    deliver none frame_type frame_bytes now_ms server = done server
    deliver (some peer_ref) frame_type frame_bytes now_ms server = do
      valid ← verify_crc frame_bytes
      (if valid
          then (do
            payload_bytes ← payload frame_bytes
            handle_frame random peer_ref frame_type payload_bytes now_ms server)
          else done server)

    unfoldable pub handle_frame_other :
        FrameType → List ℕ → Addr → ℕ → ServerCore Addr F → Run (ServerCore Addr F)
    unfolding deliver get
    handle_frame_other frame_type frame_bytes sender_addr now_ms server =
        deliver (get same sender_addr server.peers) frame_type frame_bytes now_ms server

    -- The `match` on the type; a first frame is answered with the nonce that the server draws
    unfoldable pub dispatch :
        Option FrameType → List ℕ → Addr → ℕ → ℕ → ServerCore Addr F → Run (ServerCore Addr F)
    unfolding handle_handshake_beta handle_frame_other
    dispatch none frame_bytes sender_addr server_nonce now_ms server = done server
    dispatch (some handshake_alpha) frame_bytes sender_addr server_nonce now_ms server = do
      answer ← handle_handshake_alpha compute frame_bytes sender_addr server_nonce now_ms
      done (reply answer sender_addr server)
    dispatch (some handshake_beta) frame_bytes sender_addr server_nonce now_ms server =
        handle_handshake_beta frame_bytes sender_addr now_ms server
    dispatch (some frame_type) frame_bytes sender_addr server_nonce now_ms server =
        handle_frame_other frame_type frame_bytes sender_addr now_ms server

    unfoldable pub handle_server_frame :
        List ℕ → Addr → ℕ → ℕ → ServerCore Addr F → Run (ServerCore Addr F)
    unfolding dispatch
    handle_server_frame frame_bytes sender_addr server_nonce now_ms server =
        if verify_minimum_size frame_bytes
        then (do
          frame_type ← read_type frame_bytes
          dispatch frame_type frame_bytes sender_addr server_nonce now_ms server)
        else done server
