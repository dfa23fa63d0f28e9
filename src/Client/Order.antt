-- ===== src/Client/Order.antt =====
-- The steps of a client (client.rs), one by one: the events that they make are in order.
use redpine_rs.Common.{
  ℕ, ◌≡◌, refl, sym, ap, ◌∙◌, subst, inl, inr, Bool, ◌&&◌, Option, none, some, List, [], ◌∷◌, ◌==◌,
  Bool-cases, Run, done, ◌>>=◌,
}
use redpine_rs.Common.Ensures.{Ensures, Ensures-done, Ensures-bind, Ensures-any}
use redpine_rs.Frame.{HandshakeAlphaAckFrame}
use redpine_rs.Frame.Envelope.{simple_read, write_boxed}
use redpine_rs.Frame.Envelope.Simple.{handshake_alpha_ack_frame, handshake_beta_frame}
use redpine_rs.Endpoint.Host.{Host}
use redpine_rs.Endpoint.FragmentQueues.{SendMode}
use redpine_rs.Endpoint.Connection.{
  Endpoint, TimeoutAction, continue, terminate, zombie, endpoint, init, prio_config, is_active,
}
use redpine_rs.Endpoint.Connection
use redpine_rs.Endpoint.Connection.Lifecycle.{
  phase_of, run_phase, Steps, Stepped, flush-Steps, disconnect-Steps,
}
use redpine_rs.Client.{
  ClientCore, State, HandshakeState, HandshakePhase, alpha, beta, handshake, active, quiescent,
  context, resume, client_params, connection_params_compatible,
}
use redpine_rs.Client.Handling.{
  enqueue_all, accept_alpha_ack, alpha_ack_in, handle_handshake_alpha_ack_in, flush_in, flush,
  send_in, send, enqueue_in, enqueue, disconnect_in, disconnect, beta_request,
}
use redpine_rs.Client.Lifecycle.{Advances, silent-Advances, resume-Advances, phase_in}

module _ {F : Type 0} where
  abbrev pub AdvancesIn : ClientCore F → Run (ClientCore F) → Type 0
  AdvancesIn client m = Ensures (λ (client' : ClientCore F). Advances client client') m

  pub same-AdvancesIn : (client : ClientCore F) → AdvancesIn client (done client)
  same-AdvancesIn client = Ensures-done _ client (silent-Advances client client refl refl)

  -- An operation of the endpoint, and the client that goes on with it.
  pub resumed-Advances :
      (ep ep' : Endpoint F) (host' : Host) (client before : ClientCore F)
      → phase_in client.state ≡ phase_of ep.state_id
      → before.events ≡ client.events
      → Stepped ep (context before) ep' host'
      → Advances client (resume ep' host' before)
  resumed-Advances ep ep' host' client before e same q =
      resume-Advances q.made ep' host' client before q.calls_lem
        (subst (λ p. run_phase p q.made ≡ some (phase_of ep'.state_id)) (sym e) q.ran) same

  pub endpoint_step :
      (ep : Endpoint F) (client : ClientCore F) (m : Run (Endpoint F × Host))
      → client.state ≡ active ep
      → Steps ep (context client) m
      → AdvancesIn client (m >>= λ r. done (resume (r.0) (r.1) client))
  endpoint_step ep client m e steps =
      Ensures-bind (λ (r : Endpoint F × Host). Stepped ep (context client) r.0 r.1) _ m _ steps
        (λ (r : Endpoint F × Host) q.
          Ensures-done _ (resume r.0 r.1 client)
            (resumed-Advances ep r.0 r.1 client client (ap phase_in e) refl q))

  enqueue-state :
      (ep : Endpoint F) (packet : List ℕ) (mode : SendMode) (now_ms : ℕ)
      → (Connection.enqueue ep packet mode now_ms).state_id ≡ ep.state_id
  unfolding Connection.enqueue
  enqueue-state ep packet mode now_ms = elim (Bool-cases (is_active ep.state_id)) [
    | inl on ↦ rw on refl
    | inr off ↦ rw off refl
  ]

  pub enqueue_all-state :
      (packets : List (List ℕ × SendMode)) (now_ms : ℕ) (ep : Endpoint F)
      → (enqueue_all packets now_ms ep).state_id ≡ ep.state_id
  unfolding enqueue_all
  enqueue_all-state [] now_ms ep = refl
  enqueue_all-state ((packet, mode) ∷ rest) now_ms ep =
      enqueue_all-state rest now_ms (Connection.enqueue ep packet mode now_ms)
      ∙ enqueue-state ep packet mode now_ms

  enqueue_in-Advances :
      (s : State F) (packet : List ℕ) (mode : SendMode) (now_ms : ℕ) (client : ClientCore F)
      → client.state ≡ s
      → Advances client (enqueue_in s packet mode now_ms client)
  unfolding enqueue_in
  enqueue_in-Advances (handshake state) packet mode now_ms client e =
      silent-Advances client _ refl (ap phase_in (sym e))
  enqueue_in-Advances (active ep) packet mode now_ms client e =
      silent-Advances client _ refl
        (ap phase_of (enqueue-state ep packet mode now_ms) ∙ ap phase_in (sym e))
  enqueue_in-Advances quiescent packet mode now_ms client e =
      silent-Advances client client refl refl

  pub enqueue-Advances :
      (packet : List ℕ) (mode : SendMode) (now_ms : ℕ) (client : ClientCore F)
      → Advances client (enqueue packet mode now_ms client)
  unfolding enqueue
  enqueue-Advances packet mode now_ms client =
      enqueue_in-Advances client.state packet mode now_ms client refl

  disconnect_in-Advances :
      (s : State F) (now_ms : ℕ) (client : ClientCore F)
      → client.state ≡ s
      → AdvancesIn client (disconnect_in s now_ms client)
  unfolding disconnect_in
  disconnect_in-Advances (handshake state) now_ms client e = same-AdvancesIn client
  disconnect_in-Advances quiescent now_ms client e = same-AdvancesIn client
  disconnect_in-Advances (active ep) now_ms client e =
      endpoint_step ep client _ e (disconnect-Steps now_ms ep (context client))

  pub disconnect-Advances :
      (now_ms : ℕ) (client : ClientCore F) → AdvancesIn client (disconnect now_ms client)
  unfolding disconnect
  disconnect-Advances now_ms client = disconnect_in-Advances client.state now_ms client refl

  accept_alpha_ack-Advances :
      (read : Option HandshakeAlphaAckFrame) (state : HandshakeState) (now_ms : ℕ)
      (client : ClientCore F)
      → client.state ≡ handshake state
      → AdvancesIn client (accept_alpha_ack read state now_ms client)
  unfolding accept_alpha_ack
  accept_alpha_ack-Advances none state now_ms client e = same-AdvancesIn client
  accept_alpha_ack-Advances (some frame) state now_ms client e =
      elim (Bool-cases (
        frame.client_nonce == state.local_nonce
        && connection_params_compatible client_params frame.server_params)) [
          | inr refused ↦ rw refused (same-AdvancesIn client)
          | inl accepted ↦ rw accepted (
              Ensures-any _ (write_boxed handshake_beta_frame (beta_request frame)) _
                (λ (request : List ℕ).
                  Ensures-done _ _ (silent-Advances client _ refl (ap phase_in (sym e)))))
        ]

  alpha_ack_in-Advances :
      (phase : HandshakePhase) (payload_bytes : List ℕ) (state : HandshakeState) (now_ms : ℕ)
      (client : ClientCore F)
      → client.state ≡ handshake state
      → AdvancesIn client (alpha_ack_in phase payload_bytes state now_ms client)
  unfolding alpha_ack_in
  alpha_ack_in-Advances beta payload_bytes state now_ms client e = same-AdvancesIn client
  alpha_ack_in-Advances alpha payload_bytes state now_ms client e =
      Ensures-any _ (simple_read handshake_alpha_ack_frame payload_bytes) _
        (λ (read : Option HandshakeAlphaAckFrame).
          accept_alpha_ack-Advances read state now_ms client e)

  pub alpha_ack-Advances :
      (s : State F) (payload_bytes : List ℕ) (now_ms : ℕ) (client : ClientCore F)
      → client.state ≡ s
      → AdvancesIn client (handle_handshake_alpha_ack_in s payload_bytes now_ms client)
  unfolding handle_handshake_alpha_ack_in
  alpha_ack-Advances (handshake state) payload_bytes now_ms client e =
      alpha_ack_in-Advances state.phase payload_bytes state now_ms client e
  alpha_ack-Advances (active ep) payload_bytes now_ms client e = same-AdvancesIn client
  alpha_ack-Advances quiescent payload_bytes now_ms client e = same-AdvancesIn client

  module _ (random : ℕ → Bool) where
    flush_in-Advances :
        (s : State F) (now_ms : ℕ) (client : ClientCore F)
        → client.state ≡ s
        → AdvancesIn client (flush_in random s now_ms client)
    unfolding flush_in
    flush_in-Advances (handshake state) now_ms client e = same-AdvancesIn client
    flush_in-Advances quiescent now_ms client e = same-AdvancesIn client
    flush_in-Advances (active ep) now_ms client e =
        endpoint_step ep client _ e (flush-Steps random now_ms ep (context client))

    pub flush-Advances :
        (now_ms : ℕ) (client : ClientCore F) → AdvancesIn client (flush random now_ms client)
    unfolding flush
    flush-Advances now_ms client = flush_in-Advances client.state now_ms client refl

    send_in-Advances :
        (s : State F) (packet : List ℕ) (mode : SendMode) (now_ms : ℕ) (client : ClientCore F)
        → client.state ≡ s
        → AdvancesIn client (send_in random s packet mode now_ms client)
    unfolding send_in
    send_in-Advances (handshake state) packet mode now_ms client e =
        Ensures-done _ _ (silent-Advances client _ refl (ap phase_in (sym e)))
    send_in-Advances quiescent packet mode now_ms client e = same-AdvancesIn client
    send_in-Advances (active ep) packet mode now_ms client e =
        let queued = Connection.enqueue ep packet mode now_ms in
        Ensures-bind (λ (r : Endpoint F × Host). Stepped queued (context client) r.0 r.1) _ _ _
          (flush-Steps random now_ms queued (context client))
          (λ (r : Endpoint F × Host) q. Ensures-done _ (resume r.0 r.1 client) (
            resumed-Advances queued r.0 r.1 client client
              (ap phase_in e ∙ ap phase_of (sym (enqueue-state ep packet mode now_ms))) refl q))

    pub send-Advances :
        (packet : List ℕ) (mode : SendMode) (now_ms : ℕ) (client : ClientCore F)
        → AdvancesIn client (send random packet mode now_ms client)
    unfolding send
    send-Advances packet mode now_ms client =
        send_in-Advances client.state packet mode now_ms client refl
