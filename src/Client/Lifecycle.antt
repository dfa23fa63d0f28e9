-- ===== src/Client/Lifecycle.antt =====
-- The events that a client gives to the program (client.rs), over all the calls that it makes: each
-- step's events carry on from the state before it.
use redpine_rs.Common.{
  ◌≡◌, ◌∙◌, sym, ap, append-nil, append_assoc, inl, inr, refl, ◌∷◌, [], ◌++◌, none, some, Option,
  List, Option-cases,
}
use redpine_rs.Interface.{timeout}
use redpine_rs.Endpoint.Host.{
  Call, Host, send_frame, set_rto_timer, unset_rto_timer, on_connect, on_disconnect, on_timeout,
  on_receive,
}
use redpine_rs.Endpoint.Connection.{Endpoint}
use redpine_rs.Endpoint.Connection.Quiet.{Phase, fresh, up, over, next_phase}
use redpine_rs.Endpoint.Connection.Lifecycle.{phase_of, run_phase}
use redpine_rs.Client.{
  ClientCore, State, handshake, active, quiescent, Event, connect, disconnect, receive, error,
  perform, perform_all, resume,
}

-- What may come next: `Connect`, or an error of the handshake; packets; and one notice of the end.
abbrev pub next_event : Phase → Event → Option Phase
next_event fresh connect = some up
next_event fresh (error kind) = some over
next_event fresh _ = none
next_event up (receive packet) = some up
next_event up disconnect = some over
next_event up (error timeout) = some over
next_event up _ = none
next_event over _ = none

-- The phase after some events, where each of them is allowed.
unfoldable pub run_events : Phase → List Event → Option Phase
run_events p [] = some p
run_events p (event ∷ rest) = elim (next_event p event) [
  | none ↦ none
  | some p' ↦ run_events p' rest
]

pub run_events-append :
    (p q : Phase) (xs ys : List Event)
    → run_events p xs ≡ some q
    → run_events p (xs ++ ys) ≡ run_events q ys
unfolding run_events
run_events-append p q [] ys e = ap (λ r. run_events r ys) (let same : p ≡ q = cc in same)
run_events-append p q (event ∷ xs) ys e = elim (Option-cases (next_event p event)) [
  | inl refused ↦
      absurd (let e' : ◌≡◌ {A = Option Phase} none (some q) = rw (refused, run_events) at e in cc)
  | inr (p', allowed) ↦
      rw (allowed, run_events) (run_events-append p' q xs ys (rw (allowed, run_events) at e))
]

-- The events that an endpoint's call makes.
abbrev event_of : Call → List Event
event_of (send_frame frame) = []
event_of (set_rto_timer time_ms) = []
event_of unset_rto_timer = []
event_of on_connect = connect ∷ []
event_of on_disconnect = disconnect ∷ []
event_of (on_receive packet) = receive packet ∷ []
event_of on_timeout = error timeout ∷ []

unfoldable events_of : List Call → List Event
events_of [] = []
events_of (c ∷ calls) = event_of c ++ events_of calls

event_of-next :
    (p q : Phase) (c : Call) → next_phase p c ≡ some q → run_events p (event_of c) ≡ some q
unfolding run_events
event_of-next fresh q on_connect e = e
event_of-next fresh q _ e = absurd cc
event_of-next up q (send_frame frame) e = e
event_of-next up q (set_rto_timer time_ms) e = e
event_of-next up q unset_rto_timer e = e
event_of-next up q (on_receive packet) e = e
event_of-next up q on_disconnect e = e
event_of-next up q on_timeout e = e
event_of-next up q on_connect e = absurd cc
event_of-next over q (send_frame frame) e = e
event_of-next over q (set_rto_timer time_ms) e = e
event_of-next over q _ e = absurd cc

-- Calls that are allowed make events that are.
events_of-run :
    (calls : List Call) (p q : Phase)
    → run_phase p calls ≡ some q
    → run_events p (events_of calls) ≡ some q
unfolding events_of run_events run_phase
events_of-run [] p q e = e
events_of-run (c ∷ calls) p q e = elim (Option-cases (next_phase p c)) [
  | inl refused ↦
      absurd (let e' : ◌≡◌ {A = Option Phase} none (some q) = rw (refused, run_phase) at e in cc)
  | inr (p', allowed) ↦
      run_events-append p p' (event_of c) (events_of calls) (event_of-next p p' c allowed)
      ∙ events_of-run calls p' q (rw (allowed, run_phase) at e)
]

module _ {F : Type 0} where
  abbrev pub phase_in : State F → Phase
  phase_in (handshake state) = fresh
  phase_in (active ep) = phase_of ep.state_id
  phase_in quiescent = over

  -- What a step adds to the events leads from the phase before it to the one after.
  pub record Advances (client client' : ClientCore F) : Type 0 where
    pub made : List Event
    pub events_lem : client'.events ≡ client.events ++ made
    pub ran : run_events (phase_in client.state) made ≡ some (phase_in client'.state)

  pub silent-Advances :
      (client client' : ClientCore F)
      → client'.events ≡ client.events
      → phase_in client'.state ≡ phase_in client.state
      → Advances client client'
  unfolding run_events
  silent-Advances client client' e p = record {
    made = [];
    events_lem = e ∙ sym (append-nil client.events);
    ran = ap (λ q. some q) (sym p);
  }

  perform-events :
      (c : Call) (client : ClientCore F) → (perform c client).events ≡ client.events ++ event_of c
  unfolding perform
  perform-events (send_frame frame) client = sym (append-nil client.events)
  perform-events (set_rto_timer time_ms) client = sym (append-nil client.events)
  perform-events unset_rto_timer client = sym (append-nil client.events)
  perform-events on_connect client = refl
  perform-events on_disconnect client = refl
  perform-events (on_receive packet) client = refl
  perform-events on_timeout client = refl

  perform-state : (c : Call) (client : ClientCore F) → (perform c client).state ≡ client.state
  unfolding perform
  perform-state (send_frame frame) client = refl
  perform-state (set_rto_timer time_ms) client = refl
  perform-state unset_rto_timer client = refl
  perform-state on_connect client = refl
  perform-state on_disconnect client = refl
  perform-state (on_receive packet) client = refl
  perform-state on_timeout client = refl

  perform_all-events :
      (calls : List Call) (client : ClientCore F)
      → (perform_all calls client).events ≡ client.events ++ events_of calls
  unfolding perform_all events_of
  perform_all-events [] client = sym (append-nil client.events)
  perform_all-events (c ∷ calls) client =
      perform_all-events calls (perform c client)
      ∙ ap (λ l. l ++ events_of calls) (perform-events c client)
      ∙ append_assoc client.events (event_of c) (events_of calls)

  pub perform_all-state :
      (calls : List Call) (client : ClientCore F) → (perform_all calls client).state ≡ client.state
  unfolding perform_all
  perform_all-state [] client = refl
  perform_all-state (c ∷ calls) client =
      perform_all-state calls (perform c client) ∙ perform-state c client

  -- The calls of an endpoint's operation, performed for the program.
  pub resume-Advances :
      (calls : List Call) (ep' : Endpoint F) (host' : Host) (client before : ClientCore F)
      → host'.calls ≡ calls
      → run_phase (phase_in client.state) calls ≡ some (phase_of ep'.state_id)
      → before.events ≡ client.events
      → Advances client (resume ep' host' before)
  unfolding resume
  resume-Advances calls ep' host' client before e ran same =
      let begun : ClientCore F = record before { state = active ep'; draws = host'.draws } in
      record {
        made = events_of calls;
        events_lem =
            perform_all-events host'.calls begun
            ∙ ap (λ l. before.events ++ events_of l) e
            ∙ ap (λ l. l ++ events_of calls) same;
        ran =
            events_of-run calls (phase_in client.state) (phase_of ep'.state_id) ran
            ∙ ap (λ s. some (phase_in s)) (sym (perform_all-state host'.calls begun));
      }

  -- The events taken and those that wait are allowed, and come to the phase of the state.
  pub record IsOrdered (taken : List Event) (client : ClientCore F) : Type 0 where
    pub phase : run_events fresh (taken ++ client.events) ≡ some (phase_in client.state)

  pub Advances-IsOrdered :
      (taken : List Event) (client client' : ClientCore F)
      → Advances client client'
      → IsOrdered taken client
      → IsOrdered taken client'
  Advances-IsOrdered taken client client' a o = record {
    phase =
        ap (λ l. run_events fresh (taken ++ l)) a.events_lem
        ∙ ap (run_events fresh) (sym (append_assoc taken client.events a.made))
        ∙ run_events-append fresh _ (taken ++ client.events) a.made o.phase
        ∙ a.ran;
  }
