-- ===== src/Server/Admission.antt =====
-- A server (server/mod.rs) that gets the two requests of a client's handshake.
use redpine_rs.Common.{
  ℕ, ◌≡◌, refl, ap, ◌++◌, ◌∷◌, [], ◌<◌, true, false, none, some, List, Bool, arith, leb, done,
  length, get_elem?, set, replicate, ◌==◌,
}
use redpine_rs.Common.Word.{IsU32, IsU64}
use redpine_rs.Frame.{HandshakeAlphaFrame, HandshakeBetaFrame, HandshakeBetaAckFrame}
use redpine_rs.Frame.Block.Handshake.{handshake_beta_ack-IsLawful}
use redpine_rs.Frame.Envelope.{
  verify_handshake_beta_size_and_crc, write_handshake_alpha, frame_size,
}
use redpine_rs.Frame.Envelope.Simple.{
  handshake_alpha_ack_frame, handshake_beta_frame, handshake_beta_ack_frame,
}
use redpine_rs.Frame.Envelope.Carries.{Carries, simple_write-Carries}
use redpine_rs.Endpoint.Float.{Float}
use redpine_rs.Endpoint.Prio
use redpine_rs.Endpoint.Connection.{Endpoint, prio_config, StateId}
use redpine_rs.Endpoint.Connection
use redpine_rs.Endpoint.Connection.Fresh.{endpoint-new}
use redpine_rs.Server.{ServerCore, Peer, connect}
use redpine_rs.Server.Handshake.{
  alpha_ack, beta_is_valid, connection_params_compatible, server_params,
}
use redpine_rs.Server.Handshake.Alpha.{handle_handshake_alpha-Carries}
use redpine_rs.Server.Table.{contains_key, insert}
use redpine_rs.Server.Peers.{new_peer, init, operate, resume, perform_all, perform}
use redpine_rs.Server.Frames.{
  add_peer, admit, answer_beta, handle_handshake_beta, dispatch, handle_server_frame,
}

pub get_elem?-append_length {ℓ} :
    {A : Type ℓ} (xs : List A) (x : A) → get_elem? (xs ++ x ∷ []) (length xs) ≡ some x
get_elem?-append_length [] x = refl
get_elem?-append_length (y ∷ xs) x = get_elem?-append_length xs x

set-append_length {ℓ} :
    {A : Type ℓ} (xs : List A) (x y : A) → set (xs ++ x ∷ []) (length xs) y ≡ xs ++ y ∷ []
set-append_length [] x y = refl
set-append_length (z ∷ xs) x y = ap (λ l. z ∷ l) (set-append_length xs x y)

module _ {Addr F : Type 0} (same : Discrete Addr) (compute : Addr → ℕ → ℕ → ℕ → ℕ) where
  -- The server with a new peer whose connection is up.
  abbrev pub joined : Addr → Peer Addr F → ServerCore Addr F → ServerCore Addr F
  joined sender_addr peer server = record server {
    peers = insert same sender_addr (length server.heap) server.peers;
    heap = server.heap ++ peer ∷ [];
    timer_queue = server.timer_queue ++ length server.heap ∷ [];
    events = server.events ++ connect (length server.heap) ∷ [];
  }

  add_peer-joined :
      (sender_addr : Addr) (server : ServerCore Addr F) (prio : Prio.Config)
      → prio_config server.config.channel_balance ≡ done prio
      → (peer : Peer Addr F) × (add_peer same compute sender_addr server
          ≡ done (joined sender_addr peer server))
        × (peer.addr ≡ sender_addr)
        × (peer.endpoint.state_id ≡ StateId.active)
  unfolding add_peer new_peer init operate resume perform_all perform
  add_peer-joined sender_addr server prio accepted =
      let config : Connection.Config = record {
        timeout_time_ms = server.config.connection_timeout_ms;
        prio_config = prio;
      } in
      let (fresh, made, begun, flushed) = endpoint-new {F = F} config in
      let new : Peer Addr F = record {
        addr = sender_addr;
        user_data = none;
        rto_timer = none;
        endpoint = fresh;
      } in
      let up : Peer Addr F = record new { endpoint = record fresh { state_id = StateId.active } } in
      (
        up,
        rw (accepted, made)
            (rw (get_elem?-append_length server.heap new) (
              rw (begun (record { calls = []; draws = server.draws }))
                (rw (set-append_length server.heap new up) refl))),
        refl,
        refl,
      )

  module _ ⦃f : Float F⦄ (random : ℕ → Bool) where
    -- The first request, and the answer, which leaves everything but the socket as it was.
    pub handle_server_frame-alpha :
        (frame : HandshakeAlphaFrame) (sender_addr : Addr) (server_nonce now_ms : ℕ)
        (server : ServerCore Addr F)
        → frame.protocol_id ≡ 0
        → IsU32 frame.client_nonce
        → IsU32 server_nonce
        → ((timestamp : ℕ) → IsU64 (compute sender_addr frame.client_nonce server_nonce timestamp))
        → (request answer : List ℕ) × (write_handshake_alpha frame 1472 ≡ done request)
          × (handle_server_frame same compute random request sender_addr server_nonce now_ms server
              ≡ done (record server { sent = server.sent ++ (answer, sender_addr) ∷ [] }))
          × Carries handshake_alpha_ack_frame
              (alpha_ack compute frame sender_addr server_nonce now_ms)
              answer
    unfolding handle_server_frame dispatch
    handle_server_frame-alpha frame sender_addr server_nonce now_ms server e nonce drawn macs =
        let (request, answer, made, minimum, type, answered, carries) =
          handle_handshake_alpha-Carries compute frame sender_addr server_nonce now_ms e nonce drawn
            macs in
        (request, answer, made, rw (minimum, type, dispatch, answered) refl, carries)

    -- The second request, where it is valid and there is room: a new peer.
    pub handle_server_frame-beta :
        (request : List ℕ) (frame : HandshakeBetaFrame) (sender_addr : Addr)
        (server_nonce now_ms : ℕ) (server : ServerCore Addr F) (prio : Prio.Config)
        → Carries handshake_beta_frame frame request
        → IsU32 frame.client_nonce
        → beta_is_valid compute frame sender_addr now_ms ≡ true
        → contains_key same sender_addr server.peers ≡ false
        → length server.peers < server.config.peer_count_max
        → connection_params_compatible frame.client_params server_params ≡ true
        → prio_config server.config.channel_balance ≡ done prio
        → (answer : List ℕ) × (peer : Peer Addr F) × (handle_server_frame same compute random
              request sender_addr server_nonce now_ms server
            ≡ done (record (joined sender_addr peer server) {
              sent = server.sent ++ (answer, sender_addr) ∷ [];
            }))
          × (peer.addr ≡ sender_addr)
          × (peer.endpoint.state_id ≡ StateId.active)
          × Carries handshake_beta_ack_frame
              (record { error = none; client_nonce = frame.client_nonce })
              answer
    unfolding handle_server_frame dispatch handle_handshake_beta answer_beta admit
        verify_handshake_beta_size_and_crc
    handle_server_frame-beta request frame sender_addr server_nonce now_ms server prio c nonce valid
          new room compatible accepted =
        let ack : HandshakeBetaAckFrame = record {
          error = none;
          client_nonce = frame.client_nonce;
        } in
        let (answer, written, carries) =
          simple_write-Carries handshake_beta_ack_frame handshake_beta_ack-IsLawful ack
            (replicate {A = ℕ} (frame_size handshake_beta_ack_frame) 0) nonce (omega arith)
            (omega arith) in
        let (peer, added, own, up) = add_peer-joined sender_addr server prio accepted in
        let size : (length request == 33) ≡ true = rw c.length_lem refl in
        let free : leb server.config.peer_count_max (length server.peers) ≡ false = ground arith in
        (
          answer,
          peer,
          rw (c.minimum_size, c.type, dispatch, handle_handshake_beta, size, c.crc, c.paid, c.reads)
              (rw (valid, new, free, compatible) (rw added (rw written refl))),
          own,
          up,
          carries,
        )
