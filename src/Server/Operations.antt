-- ===== src/Server/Operations.antt =====
-- What a program asks of a server and of its peers' handles (server/mod.rs, server/peer.rs), in any
-- order.
use redpine_rs.Common.{
  ℕ, ◌≡◌, ◌-◌, refl, inl, inr, ◌∷◌, [], ◌&&◌, some, List, Bool, Option, arith, ltb, Bool-cases, Run,
  done, ◌>>=◌, get_elem?,
}
use redpine_rs.Common.Ensures.{Ensures, Ensures-done, Ensures-unfinished, Ensures-bind, Ensures-any}
use redpine_rs.Endpoint.Float.{Float}
use redpine_rs.Endpoint.Host.{Host}
use redpine_rs.Endpoint.FragmentQueues.{SendMode}
use redpine_rs.Endpoint.Connection.{Endpoint}
use redpine_rs.Endpoint.Connection
use redpine_rs.Endpoint.Connection.Handling as Endpoints
use redpine_rs.Server.{Config, ServerCore, Peer, Event, bind_with_config, validate}
use redpine_rs.Server.Peers.{read, set_data, enqueue, flush, send, disconnect_peer}
use redpine_rs.Server.Polling.{
  Arrival, Round, no_events, pop_from, pop_event, pop_or, handle_frames, poll_round, poll_event,
  wait_event, wait_loop, wait_event_timeout,
}
use redpine_rs.Server.Sound.{IsSound, operate-Unchanged, read-Ensures, addrs-set}
use redpine_rs.Server.Steps.{Soundly, unchanged-Soundly, handle_timeouts-Soundly}
use redpine_rs.Server.Running.{handle_server_frame-Soundly}

pub data Operation (Addr : Type 0) : Type 0 where
  poll : Round Addr → Operation Addr
  wait : List (Round Addr) → Operation Addr
  wait_timeout : ℕ → List (Round Addr) → Operation Addr
  set_peer_data : ℕ → Option ℕ → Operation Addr
  send_to enqueue_to : ℕ → List ℕ → SendMode → ℕ → Operation Addr
  flush_to disconnect_from : ℕ → ℕ → Operation Addr
  -- the program is left with these handles
  keep_handles : List ℕ → Operation Addr

abbrev after_event : {Addr F : Type 0} → Option Event × ServerCore Addr F → Run (ServerCore Addr F)
after_event (event, server) = done server

module _ {Addr F : Type 0} (same : Discrete Addr) (compute : Addr → ℕ → ℕ → ℕ → ℕ) ⦃f : Float F⦄
    (random : ℕ → Bool) where
  unfoldable pub apply : Operation Addr → ServerCore Addr F → Run (ServerCore Addr F)
  apply (poll round) server = poll_event same compute random round server >>= after_event
  apply (wait rounds) server = wait_event same compute random rounds server >>= after_event
  apply (wait_timeout timeout_ms rounds) server =
      wait_event_timeout same compute random timeout_ms rounds server >>= after_event
  apply (set_peer_data r user_data) server = set_data r user_data server
  apply (send_to r packet mode now_ms) server = send random r packet mode now_ms server
  apply (enqueue_to r packet mode now_ms) server = enqueue r packet mode now_ms server
  apply (flush_to r now_ms) server = flush random r now_ms server
  apply (disconnect_from r now_ms) server = disconnect_peer r now_ms server
  apply (keep_handles handles) server = done (record server { handles = handles })

  unfoldable pub apply_all : List (Operation Addr) → ServerCore Addr F → Run (ServerCore Addr F)
  unfolding apply
  apply_all [] server = done server
  apply_all (op ∷ ops) server = do server' ← apply op server; apply_all ops server'

  handle_frames-Soundly :
      (frames : List (Arrival Addr)) (server : ServerCore Addr F)
      → IsSound server
      → Soundly (handle_frames same compute random frames server)
  unfolding handle_frames
  handle_frames-Soundly [] server s = Ensures-done _ server s
  handle_frames-Soundly (a ∷ frames) server s =
      Ensures-bind (λ (server' : ServerCore Addr F). IsSound server') _ _ _
        (handle_server_frame-Soundly same compute random a.frame_bytes a.sender_addr a.server_nonce
          a.now_ms server s)
        (λ (server' : ServerCore Addr F) s'. handle_frames-Soundly frames server' s')

  poll_round-Soundly :
      (round : Round Addr) (server : ServerCore Addr F)
      → IsSound server
      → Soundly (poll_round same compute random round server)
  unfolding poll_round
  poll_round-Soundly round server s =
      Ensures-bind (λ (server' : ServerCore Addr F). IsSound server') _ _ _
        (handle_frames-Soundly round.frames server s)
        (λ (server' : ServerCore Addr F) s'.
          handle_timeouts-Soundly same random round.now_ms round.clock server' s')

  -- The server that is left when a method has returned an event, or none.
  abbrev Popped : Option Event × ServerCore Addr F → Type 0
  Popped r = IsSound (r.1)

  pop_from-IsSound :
      (events : List Event) (server : ServerCore Addr F)
      → IsSound server
      → Popped (pop_from events server)
  pop_from-IsSound [] server s = s
  pop_from-IsSound (event ∷ rest) server s = record {
    room = s.room;
    entries = s.entries;
    timers = s.timers;
  }

  Popped-Soundly :
      (m : Run (ServerCore Addr F))
      → Soundly m
      → Ensures Popped (m >>= λ server. done (pop_event server))
  unfolding pop_event
  Popped-Soundly m h =
      Ensures-bind (λ (server : ServerCore Addr F). IsSound server) _ m _ h
        (λ (server : ServerCore Addr F) s.
          Ensures-done _ _ (pop_from-IsSound server.events server s))

  poll_event-Soundly :
      (round : Round Addr) (server : ServerCore Addr F)
      → IsSound server
      → Ensures Popped (poll_event same compute random round server)
  unfolding poll_event
  poll_event-Soundly round server s = Popped-Soundly _ (elim (Bool-cases (no_events server)) [
    | inl e ↦ rw e (poll_round-Soundly round server s)
    | inr e ↦ rw e (Ensures-done _ server s)
  ])

  pop_or-Soundly :
      (events : List Event) (server : ServerCore Addr F)
      (otherwise : Run (Option Event × ServerCore Addr F))
      → IsSound server
      → Ensures Popped otherwise
      → Ensures Popped (pop_or events server otherwise)
  pop_or-Soundly [] server otherwise s h = h
  pop_or-Soundly (event ∷ rest) server otherwise s h =
      Ensures-done _ _ (pop_from-IsSound (event ∷ rest) server s)

  wait_event-Soundly :
      (rounds : List (Round Addr)) (server : ServerCore Addr F)
      → IsSound server
      → Ensures Popped (wait_event same compute random rounds server)
  unfolding wait_event
  wait_event-Soundly [] server s = Ensures-unfinished _
  wait_event-Soundly (round ∷ rounds) server s =
      Ensures-bind (λ (server' : ServerCore Addr F). IsSound server') _ _ _
        (poll_round-Soundly round server s)
        (λ (server' : ServerCore Addr F) s'.
          pop_or-Soundly server'.events server' _ s' (wait_event-Soundly rounds server' s'))

  wait_loop-Soundly :
      (remaining_ms : ℕ) (rounds : List (Round Addr)) (server : ServerCore Addr F)
      → IsSound server
      → Soundly (wait_loop same compute random remaining_ms rounds server)
  unfolding wait_loop
  wait_loop-Soundly remaining_ms [] server s = Ensures-unfinished _
  wait_loop-Soundly remaining_ms (round ∷ rounds) server s =
      Ensures-bind (λ (server' : ServerCore Addr F). IsSound server') _ _ _
        (poll_round-Soundly round server s)
        (λ (server' : ServerCore Addr F) s'.
          elim (Bool-cases (no_events server' && ltb round.elapsed_ms remaining_ms)) [
            | inl e ↦ rw e (wait_loop-Soundly (remaining_ms - round.elapsed_ms) rounds server' s')
            | inr e ↦ rw e (Ensures-done _ server' s')
          ])

  wait_event_timeout-Soundly :
      (timeout_ms : ℕ) (rounds : List (Round Addr)) (server : ServerCore Addr F)
      → IsSound server
      → Ensures Popped (wait_event_timeout same compute random timeout_ms rounds server)
  unfolding wait_event_timeout
  wait_event_timeout-Soundly timeout_ms rounds server s =
      Popped-Soundly _ (elim (Bool-cases (no_events server)) [
        | inl e ↦ rw e (wait_loop-Soundly timeout_ms rounds server s)
        | inr e ↦ rw e (Ensures-done _ server s)
      ])

  after_event-Soundly :
      (m : Run (Option Event × ServerCore Addr F)) → Ensures Popped m → Soundly (m >>= after_event)
  after_event-Soundly m h =
      Ensures-bind Popped _ m _ h
        (λ (r : Option Event × ServerCore Addr F) s. Ensures-done _ (r.1) s)

  apply-Soundly :
      (op : Operation Addr) (server : ServerCore Addr F)
      → IsSound server
      → Soundly (apply op server)
  unfolding apply set_data send enqueue flush disconnect_peer
  apply-Soundly (poll round) server s = after_event-Soundly _ (poll_event-Soundly round server s)
  apply-Soundly (wait rounds) server s = after_event-Soundly _ (wait_event-Soundly rounds server s)
  apply-Soundly (wait_timeout timeout_ms rounds) server s =
      after_event-Soundly _ (wait_event_timeout-Soundly timeout_ms rounds server s)
  apply-Soundly (set_peer_data r user_data) server s =
      Ensures-bind (λ (peer : Peer Addr F). get_elem? server.heap r ≡ some peer) _
        (read (get_elem? server.heap r)) _ (read-Ensures server.heap r)
        (λ (peer : Peer Addr F) e.
          let same_addrs =
            addrs-set server.heap r peer (record peer { user_data = user_data }) e refl in
          Ensures-done _ _
            (record { room = s.room; entries = rw same_addrs s.entries; timers = s.timers }))
  apply-Soundly (send_to r packet mode now_ms) server s = unchanged-Soundly server _ s (
      operate-Unchanged r
        (λ (ep : Endpoint F) host.
          Endpoints.flush random now_ms (Connection.enqueue ep packet mode now_ms) host)
        server)
  apply-Soundly (enqueue_to r packet mode now_ms) server s = unchanged-Soundly server _ s (
      operate-Unchanged r
        (λ (ep : Endpoint F) (host : Host). done (Connection.enqueue ep packet mode now_ms, host))
        server)
  apply-Soundly (flush_to r now_ms) server s =
      unchanged-Soundly server _ s (operate-Unchanged r (Endpoints.flush random now_ms) server)
  apply-Soundly (disconnect_from r now_ms) server s =
      unchanged-Soundly server _ s (operate-Unchanged r (Endpoints.disconnect now_ms) server)
  apply-Soundly (keep_handles handles) server s =
      Ensures-done _ _ (record { room = s.room; entries = s.entries; timers = s.timers })

  apply_all-Soundly :
      (ops : List (Operation Addr)) (server : ServerCore Addr F)
      → IsSound server
      → Soundly (apply_all ops server)
  unfolding apply_all
  apply_all-Soundly [] server s = Ensures-done _ server s
  apply_all-Soundly (op ∷ ops) server s =
      Ensures-bind (λ (server' : ServerCore Addr F). IsSound server') _ (apply op server) _
        (apply-Soundly op server s)
        (λ (server' : ServerCore Addr F) s'. apply_all-Soundly ops server' s')

  -- A new server is put through any calls of the program and of its handles that return, with any
  -- frames coming in from any addresses. Then its table has no more peers than the configuration
  -- allows, and every entry of it names a peer that was made for the address of the entry, and whose
  -- timer is still in the queue.
  pub apply_all-IsSound :
      (config : Config) (ops : List (Operation Addr)) (server server' : ServerCore Addr F)
      → bind_with_config config ≡ done server
      → apply_all ops server ≡ done server'
      → IsSound server'
  unfolding bind_with_config
  apply_all-IsSound config ops server server' made e =
      (apply_all-Soundly ops server (bound.at server made)).at server' e
    where
      bound : Soundly {Addr = Addr} {F = F} (bind_with_config config)
      bound = Ensures-any _ (validate config) _ (λ (u : Unit {0}).
          Ensures-done _ _ (record { room = omega arith; entries = tt; timers = tt }))
