-- ===== src/Client/Answers.antt =====
-- A client (client.rs) that gets the server's answers to its handshake.
use redpine_rs.Endpoint.Prio
use redpine_rs.Endpoint.Connection
use redpine_rs.Endpoint.Connection.Fresh.{endpoint-new}
use redpine_rs.Common.{◌==◌, ℕ, ◌≡◌, refl, ◌++◌, ◌∷◌, [], true, some, List, ==-self, done}
use redpine_rs.Frame.{HandshakeBetaAckFrame, HandshakeAlphaAckFrame}
use redpine_rs.Frame.Block.Handshake.{handshake_beta-IsLawful, BetaFits}
use redpine_rs.Frame.Envelope.Simple.{
  handshake_beta_ack_frame, handshake_alpha_ack_frame, handshake_beta_frame,
}
use redpine_rs.Frame.Envelope.Carries.{Carries, write_boxed-Carries}
use redpine_rs.Endpoint.Float.{Float}
use redpine_rs.Endpoint.Connection.{StateId, prio_config, later}
use redpine_rs.Client.{
  on_connect, connect, active, Endpoint, none, perform, perform_all, resume, Bool, ClientCore,
  HandshakeState, handshake, alpha, beta, client_params, connection_params_compatible,
}
use redpine_rs.Client.Handling.{
  enqueue_all, start, accept_beta_ack, read_beta_ack, beta_ack_in, handle_handshake_beta_ack_in,
  handle_handshake_beta_ack, handle_frame, handle_typed, dispatch, handle_handshake_alpha_ack,
  handle_handshake_alpha_ack_in, alpha_ack_in, accept_alpha_ack, beta_request,
}

module _ {F : Type 0} ⦃f : Float F⦄ (random : ℕ → Bool) where
  -- What a client is after a good answer to its first frame.
  abbrev pub asked : List ℕ → HandshakeState → ℕ → ClientCore F → ClientCore F
  asked request state now_ms client = record client {
    sent = client.sent ++ request ∷ [];
    state = handshake (record state {
      phase = beta;
      timeout_time_ms = later now_ms state.timeout_ms;
      frame = request;
    });
    rto_timer = some (later now_ms 2000);
  }

  pub handle_frame-alpha_ack :
      (reply : List ℕ) (ack : HandshakeAlphaAckFrame) (now_ms : ℕ) (client : ClientCore F)
      (state : HandshakeState)
      → Carries handshake_alpha_ack_frame ack reply
      → client.state ≡ handshake state
      → state.phase ≡ alpha
      → ack.client_nonce ≡ state.local_nonce
      → connection_params_compatible client_params ack.server_params ≡ true
      → BetaFits (beta_request ack)
      → (request : List ℕ) × (handle_frame random reply now_ms client
          ≡ done (asked request state now_ms client))
        × Carries handshake_beta_frame (beta_request ack) request
  unfolding handle_frame handle_typed dispatch handle_handshake_alpha_ack
      handle_handshake_alpha_ack_in alpha_ack_in accept_alpha_ack
  handle_frame-alpha_ack reply ack now_ms client state c e phase nonce compatible fits =
      let (request, written, carries) =
        write_boxed-Carries handshake_beta_frame handshake_beta-IsLawful (beta_request ack) fits
          refl in
      let same : (ack.client_nonce == state.local_nonce) ≡ true =
        rw nonce (==-self state.local_nonce) in
      (
        request,
        rw
            (
              c.minimum_size, c.type, handle_typed, c.crc, c.paid, e, phase, alpha_ack_in, c.reads,
              accept_alpha_ack,
            )
            (rw (same, compatible) (rw written refl)),
        carries,
      )

  -- The last answer, to a client that has kept no packets: the connection is up.
  pub handle_frame-beta_ack :
      (reply : List ℕ) (ack : HandshakeBetaAckFrame) (now_ms : ℕ) (client : ClientCore F)
      (state : HandshakeState) (prio : Prio.Config)
      → Carries handshake_beta_ack_frame ack reply
      → client.state ≡ handshake state
      → state.phase ≡ beta
      → ack.client_nonce ≡ state.local_nonce
      → ack.error ≡ none
      → state.packet_buffer ≡ []
      → prio_config client.config.channel_balance ≡ done prio
      → (client' : ClientCore F) × (ep : Endpoint F) × (handle_frame random reply now_ms client
          ≡ done client')
        × (client'.state ≡ active ep)
        × (ep.state_id ≡ StateId.active)
        × (client'.events ≡ client.events ++ connect ∷ [])
        × (client'.sent ≡ client.sent)
  unfolding handle_frame handle_typed dispatch handle_handshake_beta_ack
      handle_handshake_beta_ack_in beta_ack_in read_beta_ack accept_beta_ack start enqueue_all
      resume perform_all perform
  handle_frame-beta_ack reply ack now_ms client state prio c e phase nonce no_error empty accepted =
      let same : (ack.client_nonce == state.local_nonce) ≡ true =
        rw nonce (==-self state.local_nonce) in
      let config : Connection.Config = record {
        timeout_time_ms = client.config.connection_timeout_ms;
        prio_config = prio;
      } in
      let (fresh, made, begun, flushed) = endpoint-new {F = F} config in
      let (ep', flush_lem, is_up) =
        flushed random now_ms (record { calls = on_connect ∷ []; draws = client.draws }) in
      (
        resume ep' (record { calls = on_connect ∷ []; draws = client.draws })
            (record client { rto_timer = none }),
        ep',
        rw
            (
              c.minimum_size, c.type, handle_typed, c.crc, c.paid, e, phase, beta_ack_in, c.reads,
              read_beta_ack,
            )
            (rw (same, no_error, accept_beta_ack, start)
              (rw (empty, accepted, made)
                (rw (begun (record { calls = []; draws = client.draws })) (rw flush_lem refl)))),
        refl,
        is_up,
        refl,
        refl,
      )
