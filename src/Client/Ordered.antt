-- ===== src/Client/Ordered.antt =====
-- A client from its connection to its end (client.rs): the events of the remaining steps, and of all
-- calls in any order.
use redpine_rs.Common.{
  All, ℕ, ◌≡◌, refl, sym, ap, ◌∙◌, inl, inr, Bool, Option, none, some, List, [], ◌∷◌, ◌++◌,
  append_assoc, leb, Bool-cases, Option-cases, Run, done,
}
use redpine_rs.Common.Ensures.{Ensures, Ensures-done, Ensures-bind, Ensures-any}
use redpine_rs.Frame.{FrameType, handshake_alpha_ack, handshake_beta_ack}
use redpine_rs.Frame.Envelope.{verify_minimum_size, verify_crc, read_type, payload}
use redpine_rs.Interface.{timeout}
use redpine_rs.Endpoint.Host.{Host}
use redpine_rs.Endpoint.Float.{Float}
use redpine_rs.Endpoint.Connection.{Endpoint, TimeoutAction, continue, terminate, zombie}
use redpine_rs.Endpoint.Connection.Timeout.{handle_rto_timer}
use redpine_rs.Endpoint.Connection.Firing.{Fired, handle_rto_timer-Fires}
use redpine_rs.Endpoint.Connection.Quiet.{fresh}
use redpine_rs.Endpoint.Connection.Lifecycle.{phase_of}
use redpine_rs.Endpoint.Connection.Operations.{receive_frame, apply-Steps, apply}
use redpine_rs.Client.{
  frame_size_max, write_handshake_alpha, validate, Config, connect_with_config, ClientCore, State,
  HandshakeState, handshake, active, quiescent, context, resume, error,
}
use redpine_rs.Client.Handling.{
  handle_handshake_beta_ack, handle_handshake_alpha_ack, retry_handshake, settle, process_timeout,
  process_timer, process_timeouts, handle_frame_other_in, handle_frame_other, dispatch,
  handle_typed, handle_frame,
}
use redpine_rs.Client.Lifecycle.{Advances, silent-Advances, perform_all-state, phase_in, run_events}
use redpine_rs.Client.Polling.{Round}
use redpine_rs.Client.{Event}
use redpine_rs.Client.Operations.{
  RoundIn, wait_timeout, wait, apply_all-Kept, poll, apply_all, TimesIn, Operation, IsKept,
}
use redpine_rs.Client.Lifecycle.{IsOrdered, Advances-IsOrdered}
use redpine_rs.Client.Starting.{beta_ack-Advances}
use redpine_rs.Client.Order.{
  AdvancesIn, same-AdvancesIn, resumed-Advances, endpoint_step, enqueue-Advances,
  disconnect-Advances, alpha_ack-Advances, flush-Advances, send-Advances,
}

abbrev pub Anytime : ℕ → Type 0
Anytime now_ms = Unit

module _ {F : Type 0} where
  retry_handshake-Advances :
      (state : HandshakeState) (now_ms : ℕ) (client : ClientCore F)
      → client.state ≡ handshake state
      → Advances client (retry_handshake state now_ms client)
  unfolding retry_handshake run_events
  retry_handshake-Advances state now_ms client e =
      elim (Bool-cases (leb state.timeout_time_ms now_ms)) [
        | inl late ↦ rw late (record {
          made = error timeout ∷ [];
          events_lem = refl;
          ran = ap (λ s. run_events (phase_in s) (error timeout ∷ [])) e;
        })
        | inr early ↦ rw early (silent-Advances client _ refl refl)
      ]

  settle-Advances :
      (action : TimeoutAction) (ep' : Endpoint F) (client client' : ClientCore F)
      → (action ≡ terminate → ep'.state_id ≡ zombie)
      → client'.state ≡ active ep'
      → Advances client client'
      → Advances client (settle action client')
  unfolding settle
  settle-Advances continue ep' client client' gone e a = a
  settle-Advances terminate ep' client client' gone e a = record {
    made = a.made;
    events_lem = a.events_lem;
    ran = a.ran ∙ ap (λ s. some (phase_in s)) e ∙ ap (λ s. some (phase_of s)) (gone refl);
  }

  module _ ⦃f : Float F⦄ (random : ℕ → Bool) where
    process_timeout-Advances :
        (s : State F) (now_ms : ℕ) (client : ClientCore F)
        → client.state ≡ s
        → AdvancesIn client (process_timeout random s now_ms client)
    unfolding process_timeout handle_rto_timer resume
    process_timeout-Advances (handshake state) now_ms client e =
        Ensures-done _ _ (retry_handshake-Advances state now_ms client e)
    process_timeout-Advances quiescent now_ms client e = same-AdvancesIn client
    process_timeout-Advances (active ep) now_ms client e =
        Ensures-bind
          (λ (r : Endpoint F × Host × TimeoutAction). Fired ep (context client) r.0 r.1 r.2) _
          (handle_rto_timer random now_ms ep (context client)) _
          (handle_rto_timer-Fires random ep.state_id now_ms ep (context client) refl)
          (λ (r : Endpoint F × Host × TimeoutAction) q.
            Ensures-done _ (settle r.2 (resume r.0 r.1 client)) (
              settle-Advances r.2 r.0 client (resume r.0 r.1 client) q.terminates
                (perform_all-state r.1.calls _)
                (resumed-Advances ep r.0 r.1 client client (ap phase_in e) refl q.stepped)))

    process_timer-Advances :
        (timer : Option ℕ) (now_ms : ℕ) (client : ClientCore F)
        → AdvancesIn client (process_timer random timer now_ms client)
    unfolding process_timer
    process_timer-Advances none now_ms client = same-AdvancesIn client
    process_timer-Advances (some timeout_ms) now_ms client =
        elim (Bool-cases (leb timeout_ms now_ms)) [
          | inr early ↦ rw early (same-AdvancesIn client)
          | inl due ↦
              let expired : ClientCore F = record client { rto_timer = none } in
              let steps = process_timeout-Advances client.state now_ms expired refl in
              rw due (record {
                at = λ client' p.
                    let a = steps.at client' p in
                    record { made = a.made; events_lem = a.events_lem; ran = a.ran };
              })
        ]

    handle_frame_other-Advances :
        (s : State F) (frame_type : FrameType) (payload_bytes : List ℕ) (now_ms : ℕ)
        (client : ClientCore F)
        → client.state ≡ s
        → AdvancesIn client (handle_frame_other_in random s frame_type payload_bytes now_ms client)
    unfolding handle_frame_other_in apply
    handle_frame_other-Advances (handshake state) frame_type payload_bytes now_ms client e =
        same-AdvancesIn client
    handle_frame_other-Advances quiescent frame_type payload_bytes now_ms client e =
        same-AdvancesIn client
    handle_frame_other-Advances (active ep) frame_type payload_bytes now_ms client e =
        endpoint_step ep client _ e
          (apply-Steps random (receive_frame frame_type payload_bytes now_ms) ep (context client))

    dispatch-Advances :
        (frame_type : FrameType) (payload_bytes : List ℕ) (now_ms : ℕ) (client : ClientCore F)
        → AdvancesIn client (dispatch random frame_type payload_bytes now_ms client)
    unfolding dispatch handle_handshake_alpha_ack handle_handshake_beta_ack handle_frame_other
    dispatch-Advances handshake_alpha_ack payload_bytes now_ms client =
        alpha_ack-Advances client.state payload_bytes now_ms client refl
    dispatch-Advances handshake_beta_ack payload_bytes now_ms client =
        beta_ack-Advances random client.state payload_bytes now_ms client refl
    dispatch-Advances frame_type payload_bytes now_ms client =
        handle_frame_other-Advances client.state frame_type payload_bytes now_ms client refl

    handle_frame-Advances :
        (frame_bytes : List ℕ) (now_ms : ℕ) (client : ClientCore F)
        → AdvancesIn client (handle_frame random frame_bytes now_ms client)
    unfolding handle_frame handle_typed
    handle_frame-Advances frame_bytes now_ms client =
        elim (Bool-cases (verify_minimum_size frame_bytes)) [
          | inr short ↦ rw short (same-AdvancesIn client)
          | inl long ↦ rw long (
              Ensures-any _ (read_type frame_bytes) _ (λ (read : Option FrameType).
                elim (Option-cases read) [
                  | inl unknown ↦ rw (unknown, handle_typed) (same-AdvancesIn client)
                  | inr (frame_type, known) ↦
                      rw (known, handle_typed)
                        (Ensures-any _ (verify_crc frame_bytes) _ (λ (valid : Bool).
                          elim (Bool-cases valid) [
                            | inr wrong ↦ rw wrong (same-AdvancesIn client)
                            | inl right ↦ rw right (
                                Ensures-any _ (payload frame_bytes) _ (λ (payload_bytes : List ℕ).
                                  dispatch-Advances frame_type payload_bytes now_ms client))
                          ]))
                ]))
        ]

    ordered :
        (taken : List Event) (client : ClientCore F) (m : Run (ClientCore F))
        → AdvancesIn client m
        → IsOrdered taken client
        → Ensures (λ (client' : ClientCore F). IsOrdered taken client') m
    ordered taken client m a o = record {
      at = λ client' e. Advances-IsOrdered taken client client' (a.at client' e) o;
    }

    IsOrdered-IsKept :
        IsKept {F = F} ⦃f = f⦄ random Anytime (λ taken client. IsOrdered taken client)
    unfolding process_timeouts
    IsOrdered-IsKept = record {
      frame_kept = λ frame_bytes now_ms taken client t o.
          ordered taken client _ (handle_frame-Advances frame_bytes now_ms client) o;
      timeouts_kept = λ now_ms taken client t o.
          ordered taken client _ (process_timer-Advances client.rto_timer now_ms client) o;
      send_kept = λ packet mode now_ms taken client t o.
          ordered taken client _ (send-Advances random packet mode now_ms client) o;
      enqueue_kept = λ packet mode now_ms taken client t o.
          Advances-IsOrdered taken client _ (enqueue-Advances packet mode now_ms client) o;
      flush_kept =
          λ now_ms taken client t o. ordered taken client _ (flush-Advances random now_ms client) o;
      disconnect_kept =
          λ now_ms taken client t o. ordered taken client _ (disconnect-Advances now_ms client) o;
      take_kept = λ event rest taken client e o. record {
        phase =
            ap (run_events fresh) (append_assoc taken (event ∷ []) rest)
            ∙ ap (λ l. run_events fresh (taken ++ l)) (sym e)
            ∙ o.phase;
      };
    }

RoundIn-Anytime : (rounds : List Round) → All (RoundIn Anytime) rounds
RoundIn-Anytime [] = tt
RoundIn-Anytime (round ∷ rounds) = ((All_any round.frames, tt), RoundIn-Anytime rounds)
  where
    All_any :
        (frames : List (List ℕ × ℕ)) → All (λ (arrival : List ℕ × ℕ). Anytime (arrival.1)) frames
    All_any [] = tt
    All_any (frame ∷ frames) = (tt, All_any frames)

TimesIn-Anytime : (op : Operation) → TimesIn Anytime op
TimesIn-Anytime (poll round) = (RoundIn-Anytime (round ∷ [])).0
TimesIn-Anytime (wait rounds) = RoundIn-Anytime rounds
TimesIn-Anytime (wait_timeout timeout_ms rounds) = RoundIn-Anytime rounds
TimesIn-Anytime _ = tt

times_any : (ops : List Operation) → All (TimesIn Anytime) ops
times_any [] = tt
times_any (op ∷ ops) = (TimesIn-Anytime op, times_any ops)

connect_with_config-IsOrdered :
    {F : Type 0} (config : Config) (local_nonce : ℕ)
    → Ensures
        (λ (client : ClientCore F). IsOrdered [] client)
        (connect_with_config config local_nonce)
unfolding connect_with_config run_events
connect_with_config-IsOrdered config local_nonce =
    Ensures-any _ (validate config) _ (λ (ok : Unit {0}).
      Ensures-any _
        (write_handshake_alpha (record { protocol_id = 0; client_nonce = local_nonce })
          frame_size_max)
        _ (λ (frame : List ℕ). Ensures-done _ _ (record { phase = refl })))

-- A new client is put through any calls of the program that return, with any frames coming in. Then
-- the events that the program has taken, and those that wait, are in order: `Connect` or an error
-- of the handshake comes first, a packet only after `Connect`, and at most one of `Disconnect` and
-- `Error(Timeout)` after that, with nothing behind it. They say how far the connection is: not made
-- yet in the handshake, over in the quiescent state, and else as the endpoint's state says.
pub apply_all-IsOrdered :
    {F : Type 0} ⦃f : Float F⦄ (random : ℕ → Bool) (config : Config) (local_nonce : ℕ)
    (ops : List Operation) (taken : List Event) (client client' : ClientCore F)
    → connect_with_config config local_nonce ≡ done client
    → apply_all random ops [] client ≡ done (taken, client')
    → run_events fresh (taken ++ client'.events) ≡ some (phase_in client'.state)
apply_all-IsOrdered {F} ⦃f⦄ random config local_nonce ops taken client client' made e =
    ((apply_all-Kept random Anytime (λ taken client. IsOrdered taken client)
        (IsOrdered-IsKept random) ops [] client (times_any ops)
        ((connect_with_config-IsOrdered config local_nonce).at client made)).at
      (taken, client') e).phase
