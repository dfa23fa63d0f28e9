-- ===== src/Client/Operations.antt =====
-- The methods of a client that the program calls (client.rs), in any order, with the events that it
-- has taken so far; and what has to be shown of each smaller step for a statement to hold throughout.
use redpine_rs.Common.{
  ltb, ◌-◌, ◌&&◌, ℕ, ◌≡◌, inl, inr, refl, ◌∷◌, [], ◌++◌, Bool, none, some, Option, List, All,
  Bool-cases, Run, done, ◌>>=◌,
}
use redpine_rs.Common.Ensures.{Ensures, Ensures-done, Ensures-unfinished, Ensures-bind}
use redpine_rs.Endpoint.Float.{Float}
use redpine_rs.Endpoint.FragmentQueues.{SendMode}
use redpine_rs.Client.{ClientCore, Event}
use redpine_rs.Client.Handling.{handle_frame, process_timeouts, send, enqueue, flush, disconnect}
use redpine_rs.Client.Polling.{
  Round, no_events, pop_event, pop_from, pop_or, handle_frames, poll_round, poll_event, wait_event,
  wait_loop, wait_event_timeout,
}

pub data Operation : Type 0 where
  poll : Round → Operation
  wait : List Round → Operation
  wait_timeout : ℕ → List Round → Operation
  send_packet enqueue_packet : List ℕ → SendMode → ℕ → Operation
  flush_at disconnect_at : ℕ → Operation

-- The times of an operation all satisfy a condition.
abbrev pub RoundIn : (ℕ → Type 0) → Round → Type 0
RoundIn Allowed round =
    All (λ (arrival : List ℕ × ℕ). Allowed (arrival.1)) round.frames × Allowed round.now_ms

abbrev pub TimesIn : (ℕ → Type 0) → Operation → Type 0
TimesIn Allowed (poll round) = RoundIn Allowed round
TimesIn Allowed (wait rounds) = All (RoundIn Allowed) rounds
TimesIn Allowed (wait_timeout timeout_ms rounds) = All (RoundIn Allowed) rounds
TimesIn Allowed (send_packet packet mode now_ms) = Allowed now_ms
TimesIn Allowed (enqueue_packet packet mode now_ms) = Allowed now_ms
TimesIn Allowed (flush_at now_ms) = Allowed now_ms
TimesIn Allowed (disconnect_at now_ms) = Allowed now_ms

module _ {F : Type 0} where
  abbrev pub log : List Event → Option Event × ClientCore F → List Event × ClientCore F
  log taken (none, client) = (taken, client)
  log taken (some event, client) = (taken ++ event ∷ [], client)

  module _ ⦃f : Float F⦄ (random : ℕ → Bool) where
    unfoldable pub apply : Operation → List Event → ClientCore F → Run (List Event × ClientCore F)
    apply (poll round) taken client = do r ← poll_event random round client; done (log taken r)
    apply (wait rounds) taken client = do r ← wait_event random rounds client; done (log taken r)
    apply (wait_timeout timeout_ms rounds) taken client = do
      r ← wait_event_timeout random timeout_ms rounds client
      done (log taken r)
    apply (send_packet packet mode now_ms) taken client = do
      client' ← send random packet mode now_ms client
      done (taken, client')
    apply (enqueue_packet packet mode now_ms) taken client =
        done (taken, enqueue packet mode now_ms client)
    apply (flush_at now_ms) taken client = do
      client' ← flush random now_ms client
      done (taken, client')
    apply (disconnect_at now_ms) taken client = do
      client' ← disconnect now_ms client
      done (taken, client')

    unfoldable pub apply_all :
        List Operation → List Event → ClientCore F → Run (List Event × ClientCore F)
    unfolding apply
    apply_all [] taken client = done (taken, client)
    apply_all (op ∷ ops) taken client = do
      (taken', client') ← apply op taken client
      apply_all ops taken' client'

    -- What a statement about the events and the client needs to hold throughout.
    pub record IsKept (Allowed : ℕ → Type 0) (I : List Event → ClientCore F → Type 0) : Type 0 where
      pub frame_kept :
          (frame_bytes : List ℕ) (now_ms : ℕ) (taken : List Event) (client : ClientCore F)
          → Allowed now_ms
          → I taken client
          → Ensures (λ client'. I taken client') (handle_frame random frame_bytes now_ms client)
      pub timeouts_kept :
          (now_ms : ℕ) (taken : List Event) (client : ClientCore F)
          → Allowed now_ms
          → I taken client
          → Ensures (λ client'. I taken client') (process_timeouts random now_ms client)
      pub send_kept :
          (packet : List ℕ) (mode : SendMode) (now_ms : ℕ) (taken : List Event)
          (client : ClientCore F)
          → Allowed now_ms
          → I taken client
          → Ensures (λ client'. I taken client') (send random packet mode now_ms client)
      pub enqueue_kept :
          (packet : List ℕ) (mode : SendMode) (now_ms : ℕ) (taken : List Event)
          (client : ClientCore F)
          → Allowed now_ms
          → I taken client
          → I taken (enqueue packet mode now_ms client)
      pub flush_kept :
          (now_ms : ℕ) (taken : List Event) (client : ClientCore F)
          → Allowed now_ms
          → I taken client
          → Ensures (λ client'. I taken client') (flush random now_ms client)
      pub disconnect_kept :
          (now_ms : ℕ) (taken : List Event) (client : ClientCore F)
          → Allowed now_ms
          → I taken client
          → Ensures (λ client'. I taken client') (disconnect now_ms client)
      pub take_kept :
          (event : Event) (rest taken : List Event) (client : ClientCore F)
          → client.events ≡ event ∷ rest
          → I taken client
          → I (taken ++ event ∷ []) (record client { events = rest })

    module _ (Allowed : ℕ → Type 0) (I : List Event → ClientCore F → Type 0)
        (k : IsKept Allowed I) where
      handle_frames-kept :
          (frames : List (List ℕ × ℕ)) (taken : List Event) (client : ClientCore F)
          → All (λ (arrival : List ℕ × ℕ). Allowed (arrival.1)) frames
          → I taken client
          → Ensures (λ client'. I taken client') (handle_frames random frames client)
      unfolding handle_frames
      handle_frames-kept [] taken client all i = Ensures-done _ client i
      handle_frames-kept ((frame_bytes, now_ms) ∷ frames) taken client (here, all) i =
          Ensures-bind (λ (client' : ClientCore F). I taken client') _ _ _
            (k.frame_kept frame_bytes now_ms taken client here i)
            (λ (client' : ClientCore F) i'. handle_frames-kept frames taken client' all i')

      poll_round-kept :
          (round : Round) (taken : List Event) (client : ClientCore F)
          → RoundIn Allowed round
          → I taken client
          → Ensures (λ client'. I taken client') (poll_round random round client)
      unfolding poll_round
      poll_round-kept round taken client (all, here) i =
          Ensures-bind (λ (client' : ClientCore F). I taken client') _ _ _
            (handle_frames-kept round.frames taken client all i)
            (λ (client' : ClientCore F) i'. k.timeouts_kept round.now_ms taken client' here i')

      pop_from-kept :
          (events taken : List Event) (client : ClientCore F)
          → client.events ≡ events
          → I taken client
          → let r = log taken (pop_from events client) in I (r.0) (r.1)
      pop_from-kept [] taken client e i = i
      pop_from-kept (event ∷ rest) taken client e i = k.take_kept event rest taken client e i

      -- What is left when a method has returned an event, or none.
      abbrev Logged : List Event → Option Event × ClientCore F → Type 0
      Logged taken r = I ((log taken r).0) ((log taken r).1)

      pop_event-kept :
          (taken : List Event) (client : ClientCore F)
          → I taken client
          → Logged taken (pop_event client)
      unfolding pop_event
      pop_event-kept taken client i = pop_from-kept client.events taken client refl i

      poll_event-kept :
          (round : Round) (taken : List Event) (client : ClientCore F)
          → RoundIn Allowed round
          → I taken client
          → Ensures (λ r. Logged taken r) (poll_event random round client)
      unfolding poll_event
      poll_event-kept round taken client allowed i =
          Ensures-bind (λ (client' : ClientCore F). I taken client') _ _ _
            (elim (Bool-cases (no_events client)) [
              | inl e ↦ rw e (poll_round-kept round taken client allowed i)
              | inr e ↦ rw e (Ensures-done _ client i)
            ])
            (λ (client' : ClientCore F) i'.
              Ensures-done _ (pop_event client') (pop_event-kept taken client' i'))

      pop_or-kept :
          (events taken : List Event) (client : ClientCore F)
          (otherwise : Run (Option Event × ClientCore F))
          → client.events ≡ events
          → I taken client
          → Ensures (λ r. Logged taken r) otherwise
          → Ensures (λ r. Logged taken r) (pop_or events client otherwise)
      pop_or-kept [] taken client otherwise e i rest = rest
      pop_or-kept (event ∷ events) taken client otherwise e i rest =
          Ensures-done _ (some event, record client { events = events })
            (k.take_kept event events taken client e i)

      wait_event-kept :
          (rounds : List Round) (taken : List Event) (client : ClientCore F)
          → All (RoundIn Allowed) rounds
          → I taken client
          → Ensures (λ r. Logged taken r) (wait_event random rounds client)
      unfolding wait_event
      wait_event-kept [] taken client all i = Ensures-unfinished _
      wait_event-kept (round ∷ rounds) taken client (here, all) i =
          Ensures-bind (λ (client' : ClientCore F). I taken client') _ _ _
            (poll_round-kept round taken client here i)
            (λ (client' : ClientCore F) i'.
              pop_or-kept client'.events taken client' _ refl i'
                (wait_event-kept rounds taken client' all i'))

      wait_loop-kept :
          (remaining_ms : ℕ) (rounds : List Round) (taken : List Event) (client : ClientCore F)
          → All (RoundIn Allowed) rounds
          → I taken client
          → Ensures (λ client'. I taken client') (wait_loop random remaining_ms rounds client)
      unfolding wait_loop
      wait_loop-kept remaining_ms [] taken client all i = Ensures-unfinished _
      wait_loop-kept remaining_ms (round ∷ rounds) taken client (here, all) i =
          Ensures-bind (λ (client' : ClientCore F). I taken client') _ _ _
            (poll_round-kept round taken client here i)
            (λ (client' : ClientCore F) i'.
              elim (Bool-cases (no_events client' && ltb round.elapsed_ms remaining_ms)) [
                | inl e ↦
                    rw e
                      (wait_loop-kept (remaining_ms - round.elapsed_ms) rounds taken client' all i')
                | inr e ↦ rw e (Ensures-done _ client' i')
              ])

      wait_event_timeout-kept :
          (timeout_ms : ℕ) (rounds : List Round) (taken : List Event) (client : ClientCore F)
          → All (RoundIn Allowed) rounds
          → I taken client
          → Ensures (λ r. Logged taken r) (wait_event_timeout random timeout_ms rounds client)
      unfolding wait_event_timeout
      wait_event_timeout-kept timeout_ms rounds taken client all i =
          Ensures-bind (λ (client' : ClientCore F). I taken client') _ _ _
            (elim (Bool-cases (no_events client)) [
              | inl e ↦ rw e (wait_loop-kept timeout_ms rounds taken client all i)
              | inr e ↦ rw e (Ensures-done _ client i)
            ])
            (λ (client' : ClientCore F) i'.
              Ensures-done _ (pop_event client') (pop_event-kept taken client' i'))

      -- The statement about the events taken and the client, after a method.
      abbrev pub Kept : List Event × ClientCore F → Type 0
      Kept r = I (r.0) (r.1)

      Logged-Kept :
          (taken : List Event) (m : Run (Option Event × ClientCore F))
          → Ensures (λ r. Logged taken r) m
          → Ensures Kept (m >>= λ r. done (log taken r))
      Logged-Kept taken m h =
          Ensures-bind (λ (r : Option Event × ClientCore F). Logged taken r) _ m _ h
            (λ (r : Option Event × ClientCore F) i'. Ensures-done _ (log taken r) i')

      silent-Kept :
          (taken : List Event) (m : Run (ClientCore F))
          → Ensures (λ client'. I taken client') m
          → Ensures Kept (m >>= λ client'. done (taken, client'))
      silent-Kept taken m h =
          Ensures-bind (λ (client' : ClientCore F). I taken client') _ m _ h
            (λ (client' : ClientCore F) i'. Ensures-done _ (taken, client') i')

      apply-Kept :
          (op : Operation) (taken : List Event) (client : ClientCore F)
          → TimesIn Allowed op
          → I taken client
          → Ensures Kept (apply op taken client)
      unfolding apply
      apply-Kept (poll round) taken client t i =
          Logged-Kept taken _ (poll_event-kept round taken client t i)
      apply-Kept (wait rounds) taken client t i =
          Logged-Kept taken _ (wait_event-kept rounds taken client t i)
      apply-Kept (wait_timeout timeout_ms rounds) taken client t i =
          Logged-Kept taken _ (wait_event_timeout-kept timeout_ms rounds taken client t i)
      apply-Kept (send_packet packet mode now_ms) taken client t i =
          silent-Kept taken _ (k.send_kept packet mode now_ms taken client t i)
      apply-Kept (enqueue_packet packet mode now_ms) taken client t i =
          Ensures-done _ (taken, enqueue packet mode now_ms client)
            (k.enqueue_kept packet mode now_ms taken client t i)
      apply-Kept (flush_at now_ms) taken client t i =
          silent-Kept taken _ (k.flush_kept now_ms taken client t i)
      apply-Kept (disconnect_at now_ms) taken client t i =
          silent-Kept taken _ (k.disconnect_kept now_ms taken client t i)

      pub apply_all-Kept :
          (ops : List Operation) (taken : List Event) (client : ClientCore F)
          → All (TimesIn Allowed) ops
          → I taken client
          → Ensures Kept (apply_all ops taken client)
      unfolding apply_all
      apply_all-Kept [] taken client all i = Ensures-done _ (taken, client) i
      apply_all-Kept (op ∷ ops) taken client (t, all) i =
          Ensures-bind Kept _ (apply op taken client) _ (apply-Kept op taken client t i)
            (λ (r : List Event × ClientCore F) i'. apply_all-Kept ops (r.0) (r.1) all i')
