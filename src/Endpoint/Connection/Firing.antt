-- ===== src/Endpoint/Connection/Firing.antt =====
-- About the timer of an endpoint in endpoint/mod.rs: what it does to the state of the connection,
-- and what it answers.
use redpine_rs.Common.{
  ℕ, ◌*◌, ◌%◌, ◌^◌, ◌≡◌, refl, sym, ap, subst, inl, inr, Bool, false, Option, none, some, [], ◌∷◌,
  leb, Bool-cases, Run, done, append-nil,
}
use redpine_rs.Common.Ensures.{Ensures, Ensures-done, Ensures-panic, Ensures-bind}
use redpine_rs.Endpoint.Host.{on_timeout, set_rto_timer, Host}
use redpine_rs.Endpoint.AimdReno
use redpine_rs.Endpoint.FragmentQueues
use redpine_rs.Endpoint.FragmentQueues.{SendMode}
use redpine_rs.Endpoint.Connection.{
  Endpoint, StateId, pre_init, active, closing, closed, zombie, TimeoutAction, continue, terminate,
  RtoTimerState, later,
}
use redpine_rs.Endpoint.FragmentQueues.{FragmentQueues, fragment_queues}
use redpine_rs.Endpoint.AimdReno.{AimdReno, aimd_reno}
use redpine_rs.Endpoint.Connection.Sending.{send_close_frame, send_stream_sync_frame}
use redpine_rs.Endpoint.Connection.Timeout.{
  timed_out_ms, give_up, back_off, resynchronize, handle_timer, handle_rto_timer_in,
  handle_rto_timer,
}
use redpine_rs.Endpoint.Connection.Quiet.{
  up, clamp_rto-IsRto, Quiet, Stays, Quiet-silent, Quiet-call, Quiet-trans, send_simple-Stays,
  flush_stream-Stays,
}
use redpine_rs.Endpoint.Connection.Lifecycle.{
  phase_of, Moves, expires, retires, run_phase, Stepped, same-Stepped, Quiet-Stepped, move-Stepped,
  Quiet-none, up-Phase,
}

module _ {F : Type 0} where
  -- A timer's step, with the answer that goes with the state it leaves.
  pub record Fired (ep : Endpoint F) (host : Host) (ep' : Endpoint F) (host' : Host)
      (action : TimeoutAction) : Type 0 where
    pub stepped : Stepped ep host ep' host'
    pub terminates : action ≡ terminate → ep'.state_id ≡ zombie
    pub continues : action ≡ continue → ep'.state_id ≡ ep.state_id

  abbrev pub Fires : Endpoint F → Host → Run (Endpoint F × Host × TimeoutAction) → Type 0
  Fires ep host m = Ensures (λ (r : Endpoint F × Host × TimeoutAction). Fired ep host r.0 r.1 r.2) m

  resynchronize-Stays :
      (random : ℕ → Bool) (now_ms : ℕ) (ep : Endpoint F) (host : Host)
      → Stays up ep host (resynchronize random now_ms ep host)
  unfolding resynchronize send_stream_sync_frame
  resynchronize-Stays random now_ms ep host =
      let drained : Endpoint F = record ep {
        cc_state = AimdReno.handle_timeout ep.cc_state;
        fragment_tx = FragmentQueues.handle_timeout ep.fragment_tx;
      } in
      Ensures-bind (λ (r : Endpoint F × Host). Quiet up drained host r.0 r.1) _
        (send_stream_sync_frame ep.segment_tx.next_id drained host) _
        (send_simple-Stays up _ _ drained host up-Phase)
        (λ (r : Endpoint F × Host) q. record {
          at = λ last e.
              Quiet-trans (Quiet-silent up ep drained host host refl (λ k. k) refl)
                (Quiet-trans q ((flush_stream-Stays random false false now_ms r.0 r.1).at last e));
        })

  handle_timer-Fires :
      (retry : Endpoint F → Host → Run (Endpoint F × Host)) (timer : Option RtoTimerState)
      (now_ms : ℕ) (ep : Endpoint F) (host : Host)
      → phase_of ep.state_id ≡ up
      → ((ep' : Endpoint F) (host' : Host) → Stays up ep' host' (retry ep' host'))
      → Fires ep host (handle_timer retry timer now_ms ep host)
  unfolding handle_timer give_up back_off run_phase
  handle_timer-Fires retry none now_ms ep host is_up quiet = Ensures-panic _
  handle_timer-Fires retry (some timer) now_ms ep host is_up quiet =
      elim (Bool-cases (leb ep.config.timeout_time_ms (timed_out_ms timer))) [
        | inl late ↦
            let given = give_up timer ep host in
            rw late (
              Ensures-done _ (given.0, given.1, terminate)
                (record {
                  stepped =
                      move-Stepped ep ep given.0 host host given.1 (on_timeout ∷ [])
                        (Quiet-none (phase_of ep.state_id) ep host) (expires is_up) refl refl
                        (rw is_up refl);
                  terminates = λ e. refl;
                  continues = λ e. absurd cc;
                }))
        | inr early ↦
            let backed = back_off timer now_ms ep host in
            let armed : Quiet up ep host backed.0 backed.1 =
              Quiet-call up ep backed.0 host backed.1 (set_rto_timer (later now_ms backed.0.rto_ms))
                refl (λ k. clamp_rto-IsRto (ep.rto_ms * 2 % 2 ^ 64)) refl refl in
            rw early (
              Ensures-bind (λ (r : Endpoint F × Host). Quiet up backed.0 backed.1 r.0 r.1) _
                (retry backed.0 backed.1) _ (quiet backed.0 backed.1)
                (λ (r : Endpoint F × Host) q.
                  let all = Quiet-trans armed q in
                  Ensures-done _ (r.0, r.1, continue)
                    (record {
                      stepped =
                          Quiet-Stepped ep r.0 host r.1
                            (subst (λ p. Quiet p ep host r.0 r.1) (sym is_up) all);
                      terminates = λ e. absurd cc;
                      continues = λ e. all.state_same;
                    })))
      ]

  idle : (ep : Endpoint F) (host : Host) → Fired ep host ep host continue
  idle ep host = record {
    stepped = same-Stepped ep host;
    terminates = λ e. absurd cc;
    continues = λ e. refl;
  }

  pub handle_rto_timer-Fires :
      (random : ℕ → Bool) (s : StateId) (now_ms : ℕ) (ep : Endpoint F) (host : Host)
      → ep.state_id ≡ s
      → Fires ep host (handle_rto_timer_in random s now_ms ep host)
  unfolding handle_rto_timer_in run_phase send_close_frame
  handle_rto_timer-Fires random pre_init now_ms ep host e =
      Ensures-done _ (ep, host, continue) (idle ep host)
  handle_rto_timer-Fires random zombie now_ms ep host e =
      Ensures-done _ (ep, host, continue) (idle ep host)
  handle_rto_timer-Fires random active now_ms ep host e =
      handle_timer-Fires (resynchronize random now_ms) ep.rto_timer_state now_ms ep host
        (ap phase_of e) (resynchronize-Stays random now_ms)
  handle_rto_timer-Fires random closing now_ms ep host e =
      handle_timer-Fires send_close_frame ep.rto_timer_state now_ms ep host (ap phase_of e)
        (λ ep' host'. send_simple-Stays up _ _ ep' host' up-Phase)
  handle_rto_timer-Fires random closed now_ms ep host e =
      let retired : Endpoint F = record ep { state_id = zombie } in
      Ensures-done _ (retired, host, terminate)
        (record {
          stepped =
              move-Stepped ep ep retired host host host []
                (Quiet-none (phase_of ep.state_id) ep host)
                (subst (λ s. Moves s zombie) (sym e) retires) refl (sym (append-nil host.calls))
                (ap (λ s. some (phase_of s)) e);
          terminates = λ p. refl;
          continues = λ p. absurd cc;
        })

  -- Where `handle_rto_timer` returns: if it answers `Terminate` the endpoint is a zombie, and if it
  -- answers `Continue` the state is what it was.
  pub handle_rto_timer-action :
      (random : ℕ → Bool) (now_ms : ℕ) (ep ep' : Endpoint F) (host host' : Host)
      (action : TimeoutAction)
      → handle_rto_timer random now_ms ep host ≡ done (ep', host', action)
      → (action ≡ terminate → ep'.state_id ≡ zombie)
        × (action ≡ continue → ep'.state_id ≡ ep.state_id)
  unfolding handle_rto_timer
  handle_rto_timer-action random now_ms ep ep' host host' action e =
      let fired =
        (handle_rto_timer-Fires random ep.state_id now_ms ep host refl).at (ep', host', action) e in
      (fired.terminates, fired.continues)
