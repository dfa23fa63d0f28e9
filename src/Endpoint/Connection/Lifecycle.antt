-- ===== src/Endpoint/Connection/Lifecycle.antt =====
-- The operations of an endpoint in endpoint/mod.rs: how the state of a connection moves, the order
-- of the calls to the program, and the bounds of the timeout.
use redpine_rs.Common.{
  ℕ, ◌≡◌, refl, sym, ap, ◌∙◌, subst, ◌≢◌, inl, inr, Bool, true, false, Option, none, some, List, [],
  ◌∷◌, ◌++◌, append_assoc, append-nil, Bool-cases, Option-cases, Run, All,
}
use redpine_rs.Common.Ensures.{Ensures, Ensures-done, Ensures-panic, Ensures-bind, Ensures-any}
use redpine_rs.Endpoint.Host.{Call, call, on_connect, on_disconnect, set_rto_timer, Host}
use redpine_rs.Endpoint.FragmentQueues.{SendMode}
use redpine_rs.Endpoint.Connection.{
  Endpoint, StateId, pre_init, active, closing, closed, zombie, init, enqueue, is_active,
  is_pre_init, later, disconnect_timeout_ms, arm_rto_timer,
}
use redpine_rs.Endpoint.Connection.Sending.{send_close_frame, send_close_ack_frame}
use redpine_rs.Endpoint.Connection.Handling.{
  validate_close_frame, validate_close_ack_frame, enter_closing, enter_closed, flush, disconnect,
  handle_close, handle_close_ack, handle_late_close,
}
use redpine_rs.Endpoint.Connection.Quiet.{
  Phase, fresh, up, over, next_phase, Keeps, IsRto, Quiet, Stays, Quiet-silent, Quiet-trans,
  arm_rto_timer-Quiet, send_simple-Stays, flush_stream-Stays,
}

abbrev pub phase_of : StateId → Phase
phase_of pre_init = fresh
phase_of active = up
phase_of closing = up
phase_of closed = over
phase_of zombie = over

-- The moves of the state: a connection is made once, ends once, and is then over for good.
pub data Moves : StateId → StateId → Type 0 where
  stays : {s : StateId} → Moves s s
  connects : Moves pre_init active
  closes : Moves active closing
  ends : {s : StateId} → phase_of s ≡ up → Moves s closed
  expires : {s : StateId} → phase_of s ≡ up → Moves s zombie
  retires : Moves closed zombie

-- The phase after some calls, where each of them is allowed.
unfoldable pub run_phase : Phase → List Call → Option Phase
run_phase p [] = some p
run_phase p (c ∷ rest) = elim (next_phase p c) [ none ↦ none | some p' ↦ run_phase p' rest ]

pub run_phase-append :
    (p q : Phase) (xs ys : List Call)
    → run_phase p xs ≡ some q
    → run_phase p (xs ++ ys) ≡ run_phase q ys
unfolding run_phase
run_phase-append p q [] ys e = ap (λ r. run_phase r ys) (let same : p ≡ q = cc in same)
run_phase-append p q (c ∷ xs) ys e = elim (Option-cases (next_phase p c)) [
  | inl refused ↦
      absurd (let e' : ◌≡◌ {A = Option Phase} none (some q) = rw (refused, run_phase) at e in cc)
  | inr (p', allowed) ↦
      rw (allowed, run_phase) (run_phase-append p' q xs ys (rw (allowed, run_phase) at e))
]

run_phase-All : (p : Phase) (xs : List Call) → All (Keeps p) xs → run_phase p xs ≡ some p
unfolding run_phase
run_phase-All p [] all = refl
run_phase-All p (c ∷ xs) (here, all) = rw (here, run_phase) (run_phase-All p xs all)

is_pre_init-eq : (s : StateId) → is_pre_init s ≡ true → s ≡ pre_init
is_pre_init-eq pre_init e = refl
is_pre_init-eq active e = absurd cc
is_pre_init-eq closing e = absurd cc
is_pre_init-eq closed e = absurd cc
is_pre_init-eq zombie e = absurd cc

is_active-eq : (s : StateId) → is_active s ≡ true → s ≡ active
is_active-eq pre_init e = absurd cc
is_active-eq active e = refl
is_active-eq closing e = absurd cc
is_active-eq closed e = absurd cc
is_active-eq zombie e = absurd cc

pub up-Phase : up ≢ fresh
up-Phase e = cc

over-Phase : over ≢ fresh
over-Phase e = cc

module _ {F : Type 0} where
  -- The calls so far are allowed and come to the phase of the state, and the timeout has its bounds.
  pub record IsOrderly (ep : Endpoint F) (host : Host) : Type 0 where
    pub phase : run_phase fresh host.calls ≡ some (phase_of ep.state_id)
    pub rto : IsRto ep.rto_ms

  -- The calls of a step are allowed in the phase of the state before it, and come to the one after.
  pub record Stepped (ep : Endpoint F) (host : Host) (ep' : Endpoint F) (host' : Host)
      : Type 0 where
    pub moves : Moves ep.state_id ep'.state_id
    pub rto_kept : IsRto ep.rto_ms → IsRto ep'.rto_ms
    pub made : List Call
    pub calls_lem : host'.calls ≡ host.calls ++ made
    pub ran : run_phase (phase_of ep.state_id) made ≡ some (phase_of ep'.state_id)

  pub Stepped-IsOrderly :
      (ep ep' : Endpoint F) (host host' : Host)
      → Stepped ep host ep' host'
      → IsOrderly ep host
      → IsOrderly ep' host'
  Stepped-IsOrderly ep ep' host host' q o = record {
    phase = rw q.calls_lem (run_phase-append fresh _ host.calls q.made o.phase ∙ q.ran);
    rto = q.rto_kept o.rto;
  }

  abbrev pub Steps : Endpoint F → Host → Run (Endpoint F × Host) → Type 0
  Steps ep host m = Ensures (λ (r : Endpoint F × Host). Stepped ep host r.0 r.1) m

  pub Quiet-Stepped :
      (ep ep' : Endpoint F) (host host' : Host)
      → Quiet (phase_of ep.state_id) ep host ep' host'
      → Stepped ep host ep' host'
  Quiet-Stepped ep ep' host host' q = record {
    moves = subst (λ s. Moves ep.state_id s) (sym q.state_same) stays;
    rto_kept = q.rto_kept;
    made = q.more;
    calls_lem = q.calls_lem;
    ran = rw q.state_same (run_phase-All _ q.more q.keeps);
  }

  pub same-Stepped : (ep : Endpoint F) (host : Host) → Stepped ep host ep host
  same-Stepped ep host = record {
    moves = stays;
    rto_kept = λ k. k;
    made = [];
    calls_lem = sym (append-nil host.calls);
    ran = run_phase-All (phase_of ep.state_id) [] tt;
  }

  -- A quiet stretch, and then calls that come to another phase.
  pub move-Stepped :
      (ep between ep' : Endpoint F) (host host1 host' : Host) (more : List Call)
      → Quiet (phase_of ep.state_id) ep host between host1
      → Moves ep.state_id ep'.state_id
      → ep'.rto_ms ≡ between.rto_ms
      → host'.calls ≡ host1.calls ++ more
      → run_phase (phase_of ep.state_id) more ≡ some (phase_of ep'.state_id)
      → Stepped ep host ep' host'
  move-Stepped ep between ep' host host1 host' more q m rto e run = record {
    moves = m;
    rto_kept = λ k. subst IsRto (sym rto) (q.rto_kept k);
    made = q.more ++ more;
    calls_lem = e ∙ ap (λ l. l ++ more) q.calls_lem ∙ append_assoc host.calls q.more more;
    ran =
        run_phase-append (phase_of ep.state_id) (phase_of ep.state_id) q.more more
          (run_phase-All _ q.more q.keeps)
        ∙ run;
  }

  pub Quiet-none : (p : Phase) (ep : Endpoint F) (host : Host) → Quiet p ep host ep host
  Quiet-none p ep host = Quiet-silent p ep ep host host refl (λ k. k) refl

  pub init-Steps : (ep : Endpoint F) (host : Host) → Steps ep host (init ep host)
  unfolding init run_phase
  init-Steps ep host = elim (Bool-cases (is_pre_init ep.state_id)) [
    | inr begun ↦ rw begun (Ensures-panic _)
    | inl new ↦
        let e = is_pre_init-eq ep.state_id new in
        let ep' : Endpoint F = record ep { state_id = active } in
        rw new (
          Ensures-done _ (ep', call on_connect host)
            (move-Stepped ep ep ep' host host (call on_connect host) (on_connect ∷ [])
              (Quiet-none (phase_of ep.state_id) ep host)
              (subst (λ s. Moves s active) (sym e) connects) refl refl
              (ap (λ s. run_phase (phase_of s) (on_connect ∷ [])) e)))
  ]

  pub enqueue-Stepped :
      (ep : Endpoint F) (packet_bytes : List ℕ) (mode : SendMode) (now_ms : ℕ) (host : Host)
      → Stepped ep host (enqueue ep packet_bytes mode now_ms) host
  unfolding enqueue
  enqueue-Stepped ep packet_bytes mode now_ms host = elim (Bool-cases (is_active ep.state_id)) [
    | inr inactive ↦ rw inactive (same-Stepped ep host)
    | inl on ↦
        rw on (Quiet-Stepped ep _ host host (Quiet-silent _ ep _ host host refl (λ k. k) refl))
  ]

  enter_closed-Stepped :
      (now_ms : ℕ) (ep between : Endpoint F) (host host1 : Host)
      → phase_of ep.state_id ≡ up
      → Quiet up ep host between host1
      → Stepped ep host (enter_closed now_ms between host1).0 (enter_closed now_ms between host1).1
  unfolding enter_closed run_phase
  enter_closed-Stepped now_ms ep between host host1 is_up q =
      move-Stepped ep between (enter_closed now_ms between host1).0 host host1
        (enter_closed now_ms between host1).1
        (on_disconnect ∷ set_rto_timer (later now_ms disconnect_timeout_ms) ∷ [])
        (subst (λ p. Quiet p ep host between host1) (sym is_up) q) (ends is_up) refl
        (append_assoc host1.calls _ _) (rw is_up refl)

  -- A stretch of a connection that is up.
  pub Stays-up :
      (ep : Endpoint F) (host : Host) (m : Run (Endpoint F × Host))
      → phase_of ep.state_id ≡ up
      → Stays up ep host m
      → Steps ep host m
  Stays-up ep host m is_up s = record {
    at = λ r e.
        Quiet-Stepped ep r.0 host r.1 (subst (λ p. Quiet p ep host r.0 r.1) (sym is_up) (s.at r e));
  }

  enter_closing-Steps :
      (now_ms : ℕ) (ep : Endpoint F) (host : Host)
      → ep.state_id ≡ active
      → Steps ep host (enter_closing now_ms ep host)
  unfolding enter_closing send_close_frame run_phase
  enter_closing-Steps now_ms ep host e =
      let ep0 : Endpoint F = record ep { state_id = closing } in
      let armed = arm_rto_timer now_ms ep0 host in
      let first : Stepped ep host ep0 host =
        move-Stepped ep ep ep0 host host host [] (Quiet-none (phase_of ep.state_id) ep host)
          (subst (λ s. Moves s closing) (sym e) closes) refl (sym (append-nil host.calls))
          (ap (λ s. some (phase_of s)) e) in
      record {
        at = λ r p.
            let q =
              Quiet-trans (arm_rto_timer-Quiet now_ms ep0 host)
                ((send_simple-Stays up _ _ armed.0 armed.1 up-Phase).at r p) in
            record {
              moves = subst (λ s. Moves ep.state_id s) (sym q.state_same) first.moves;
              rto_kept = q.rto_kept;
              made = q.more;
              calls_lem = q.calls_lem;
              ran =
                  subst (λ p. run_phase p q.more ≡ some (phase_of r.0.state_id))
                    (sym (ap phase_of e))
                    (run_phase-All up q.more q.keeps
                      ∙ ap (λ s. some (phase_of s)) (sym q.state_same));
            };
      }

  pub disconnect-Steps :
      (now_ms : ℕ) (ep : Endpoint F) (host : Host) → Steps ep host (disconnect now_ms ep host)
  unfolding disconnect
  disconnect-Steps now_ms ep host = elim (Bool-cases (is_active ep.state_id)) [
    | inr inactive ↦ rw inactive (Ensures-done _ (ep, host) (same-Stepped ep host))
    | inl on ↦ rw on (enter_closing-Steps now_ms ep host (is_active-eq ep.state_id on))
  ]

  pub flush-Steps :
      (random : ℕ → Bool) (now_ms : ℕ) (ep : Endpoint F) (host : Host)
      → Steps ep host (flush random now_ms ep host)
  unfolding flush
  flush-Steps random now_ms ep host = elim (Bool-cases (is_active ep.state_id)) [
    | inr inactive ↦ rw inactive (Ensures-done _ (ep, host) (same-Stepped ep host))
    | inl on ↦ rw on (
        Stays-up ep host _ (ap phase_of (is_active-eq ep.state_id on))
          (flush_stream-Stays random false false now_ms ep host))
  ]

  pub handle_close-Steps :
      (payload_bytes : List ℕ) (now_ms : ℕ) (ep : Endpoint F) (host : Host)
      → phase_of ep.state_id ≡ up
      → Steps ep host (handle_close payload_bytes now_ms ep host)
  unfolding handle_close send_close_ack_frame
  handle_close-Steps payload_bytes now_ms ep host is_up =
      Ensures-any _ (validate_close_frame ep.local_nonce payload_bytes) _ (λ (valid : Bool).
        elim (Bool-cases valid) [
          | inr wrong ↦ rw wrong (Ensures-done _ (ep, host) (same-Stepped ep host))
          | inl right ↦ rw right (
              Ensures-bind (λ (r : Endpoint F × Host). Quiet up ep host r.0 r.1) _
                (send_close_ack_frame ep host) _ (send_simple-Stays up _ _ ep host up-Phase)
                (λ (r : Endpoint F × Host) q.
                  Ensures-done _ (enter_closed now_ms r.0 r.1)
                    (enter_closed-Stepped now_ms ep r.0 host r.1 is_up q)))
        ])

  pub handle_close_ack-Steps :
      (payload_bytes : List ℕ) (now_ms : ℕ) (ep : Endpoint F) (host : Host)
      → phase_of ep.state_id ≡ up
      → Steps ep host (handle_close_ack payload_bytes now_ms ep host)
  unfolding handle_close_ack
  handle_close_ack-Steps payload_bytes now_ms ep host is_up =
      Ensures-any _ (validate_close_ack_frame ep.local_nonce payload_bytes) _ (λ (valid : Bool).
        elim (Bool-cases valid) [
          | inr wrong ↦ rw wrong (Ensures-done _ (ep, host) (same-Stepped ep host))
          | inl right ↦ rw right (
              Ensures-done _ (enter_closed now_ms ep host)
                (enter_closed-Stepped now_ms ep ep host host is_up (Quiet-none up ep host)))
        ])

  pub handle_late_close-Steps :
      (payload_bytes : List ℕ) (ep : Endpoint F) (host : Host)
      → ep.state_id ≡ closed
      → Steps ep host (handle_late_close payload_bytes ep host)
  unfolding handle_late_close send_close_ack_frame
  handle_late_close-Steps payload_bytes ep host e =
      Ensures-any _ (validate_close_frame ep.local_nonce payload_bytes) _ (λ (valid : Bool).
        elim (Bool-cases valid) [
          | inr wrong ↦ rw wrong (Ensures-done _ (ep, host) (same-Stepped ep host))
          | inl right ↦ rw right (record {
            at = λ r p. Quiet-Stepped ep r.0 host r.1 (
                subst (λ s. Quiet (phase_of s) ep host r.0 r.1) (sym e)
                  ((send_simple-Stays over _ _ ep host over-Phase).at r p));
          })
        ])
