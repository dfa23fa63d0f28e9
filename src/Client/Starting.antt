-- ===== src/Client/Starting.antt =====
-- The second answer that a client gets (client.rs): the events of a connection that starts, or that is
-- refused.
use redpine_rs.Common.{
  ℕ, ◌≡◌, refl, sym, ap, ◌∙◌, inl, inr, Bool, Option, none, some, List, [], ◌∷◌, ◌++◌, ◌==◌,
  Bool-cases, Run, done,
}
use redpine_rs.Common.Ensures.{Ensures-done, Ensures-bind, Ensures-any}
use redpine_rs.Frame.{HandshakeBetaAckFrame, HandshakeErrorKind}
use redpine_rs.Frame.Envelope.{simple_read}
use redpine_rs.Frame.Envelope.Simple.{handshake_beta_ack_frame}
use redpine_rs.Endpoint.Host.{Host}
use redpine_rs.Endpoint.Prio
use redpine_rs.Endpoint.Connection.{
  Endpoint, TimeoutAction, continue, terminate, zombie, endpoint, init, prio_config, is_active,
}
use redpine_rs.Endpoint.Connection
use redpine_rs.Endpoint.Connection.Handling as Endpoints
use redpine_rs.Endpoint.Connection.Quiet.{fresh}
use redpine_rs.Endpoint.Connection.Lifecycle.{
  phase_of, run_phase, run_phase-append, Stepped, init-Steps, flush-Steps,
}
use redpine_rs.Endpoint.Connection.Operations.{endpoint-IsOrderly}
use redpine_rs.Client.{
  ClientCore, State, HandshakeState, HandshakePhase, alpha, beta, handshake, active, quiescent,
  context, resume, error,
}
use redpine_rs.Client.Handling.{
  enqueue_all, start, accept_beta_ack, read_beta_ack, beta_ack_in, handle_handshake_beta_ack_in,
  error_kind,
}
use redpine_rs.Client.Lifecycle.{resume-Advances, phase_in, run_events}
use redpine_rs.Client.Order.{AdvancesIn, same-AdvancesIn, enqueue_all-state}

module _ {F : Type 0} where
  module _ (random : ℕ → Bool) where
    start-Advances :
        (state : HandshakeState) (now_ms : ℕ) (client : ClientCore F)
        → client.state ≡ handshake state
        → AdvancesIn client (start random state now_ms client)
    unfolding start run_phase
    start-Advances state now_ms client e =
        let ready : ClientCore F = record client { rto_timer = none } in
        Ensures-any _ (prio_config client.config.channel_balance) _ (λ (prio : Prio.Config).
          let config : Connection.Config = record {
            timeout_time_ms = client.config.connection_timeout_ms;
            prio_config = prio;
          } in
          Ensures-bind (λ (ep : Endpoint F). ◌≡◌ {A = Run (Endpoint F)} (endpoint config) (done ep))
            _ (endpoint config) _ (record { at = λ ep p. p })
            (λ (ep : Endpoint F) made.
              let begun = (endpoint-IsOrderly config ep made).phase in
              Ensures-bind (λ (r : Endpoint F × Host). Stepped ep (context ready) r.0 r.1) _
                (init ep (context ready)) _ (init-Steps ep (context ready))
                (λ (r1 : Endpoint F × Host) q1.
                  let kept = enqueue_all state.packet_buffer now_ms r1.0 in
                  Ensures-bind (λ (r : Endpoint F × Host). Stepped kept r1.1 r.0 r.1) _
                    (Endpoints.flush random now_ms kept r1.1) _
                    (flush-Steps random now_ms kept r1.1)
                    (λ (r2 : Endpoint F × Host) q2. Ensures-done _ (resume r2.0 r2.1 ready) (
                      resume-Advances (q1.made ++ q2.made) r2.0 r2.1 client ready
                        (q2.calls_lem ∙ ap (λ l. l ++ q2.made) q1.calls_lem)
                        (ap (λ s. run_phase (phase_in s) (q1.made ++ q2.made)) e
                          ∙ run_phase-append fresh _ q1.made q2.made (
                              ap (λ o. elim o [ none ↦ none | some p ↦ run_phase p q1.made ]) begun
                              ∙ q1.ran
                              ∙ ap (λ s. some (phase_of s))
                                  (sym (enqueue_all-state state.packet_buffer now_ms r1.0)))
                          ∙ q2.ran)
                        refl)))))

    accept_beta_ack-Advances :
        (answer : Option HandshakeErrorKind) (state : HandshakeState) (now_ms : ℕ)
        (client : ClientCore F)
        → client.state ≡ handshake state
        → AdvancesIn client (accept_beta_ack random answer state now_ms client)
    unfolding accept_beta_ack run_events
    accept_beta_ack-Advances none state now_ms client e = start-Advances state now_ms client e
    accept_beta_ack-Advances (some kind) state now_ms client e = Ensures-done _ _ (record {
      made = error (error_kind kind) ∷ [];
      events_lem = refl;
      ran = ap (λ s. run_events (phase_in s) (error (error_kind kind) ∷ [])) e;
    })

    read_beta_ack-Advances :
        (read : Option HandshakeBetaAckFrame) (state : HandshakeState) (now_ms : ℕ)
        (client : ClientCore F)
        → client.state ≡ handshake state
        → AdvancesIn client (read_beta_ack random read state now_ms client)
    unfolding read_beta_ack
    read_beta_ack-Advances none state now_ms client e = same-AdvancesIn client
    read_beta_ack-Advances (some frame) state now_ms client e =
        elim (Bool-cases (frame.client_nonce == state.local_nonce)) [
          | inr other ↦ rw other (same-AdvancesIn client)
          | inl own ↦ rw own (accept_beta_ack-Advances frame.error state now_ms client e)
        ]

    beta_ack_in-Advances :
        (phase : HandshakePhase) (payload_bytes : List ℕ) (state : HandshakeState) (now_ms : ℕ)
        (client : ClientCore F)
        → client.state ≡ handshake state
        → AdvancesIn client (beta_ack_in random phase payload_bytes state now_ms client)
    unfolding beta_ack_in
    beta_ack_in-Advances alpha payload_bytes state now_ms client e = same-AdvancesIn client
    beta_ack_in-Advances beta payload_bytes state now_ms client e =
        Ensures-any _ (simple_read handshake_beta_ack_frame payload_bytes) _
          (λ (read : Option HandshakeBetaAckFrame).
            read_beta_ack-Advances read state now_ms client e)

    pub beta_ack-Advances :
        (s : State F) (payload_bytes : List ℕ) (now_ms : ℕ) (client : ClientCore F)
        → client.state ≡ s
        → AdvancesIn client (handle_handshake_beta_ack_in random s payload_bytes now_ms client)
    unfolding handle_handshake_beta_ack_in
    beta_ack-Advances (handshake state) payload_bytes now_ms client e =
        beta_ack_in-Advances state.phase payload_bytes state now_ms client e
    beta_ack-Advances (active ep) payload_bytes now_ms client e = same-AdvancesIn client
    beta_ack-Advances quiescent payload_bytes now_ms client e = same-AdvancesIn client
