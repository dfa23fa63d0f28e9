-- ===== src/Server/Timers.antt =====
-- The timers of a server (`handle_timeouts` of server/mod.rs, and the `Timer` of server/peer.rs).
use redpine_rs.Common.{
  ℕ, List, [], ◌∷◌, Bool, true, false, ◌||◌, Option, none, some, ltb, ◌==◌, if◌then◌else◌, Run,
  done, ◌>>=◌, length, get_elem?, set,
}
use redpine_rs.Endpoint.Float.{Float}
use redpine_rs.Endpoint.Connection.{TimeoutAction, continue, terminate}
use redpine_rs.TimerQueue.{test}
use redpine_rs.Server.{
  Peer, ServerCore, Event, connect, disconnect, receive, error, timer_test_limit,
  timer_test_interval_ms,
}
use redpine_rs.Server.Table.{remove}
use redpine_rs.Server.Peers.{read, handle_rto_timer}

unfoldable pub member : ℕ → List ℕ → Bool
member r [] = false
member r (x ∷ rest) = if x == r then true else member r rest

abbrev pub peer_of : Event → ℕ
peer_of (connect r) = r
peer_of (disconnect r) = r
peer_of (receive r packet_bytes) = r
peer_of (error r kind) = r

unfoldable pub has_event : ℕ → List Event → Bool
has_event r [] = false
has_event r (event ∷ rest) = if peer_of event == r then true else has_event r rest

unfoldable pub in_table : {Addr : Type 0} → ℕ → List (Addr × ℕ) → Bool
in_table r [] = false
in_table r ((addr, x) ∷ rest) = if x == r then true else in_table r rest

-- `Timer::test` of a peer, and the timer that it takes away
abbrev pub is_due : Option ℕ → ℕ → Bool
is_due none now_ms = false
is_due (some t) now_ms = ltb t now_ms

module _ {Addr F : Type 0} where
  -- `Weak::upgrade` gives the peer while the table, an event or a handle of the program keeps it.
  unfoldable pub upgrade : ServerCore Addr F → ℕ → Option ℕ
  unfolding member has_event in_table
  upgrade server r =
      if in_table r server.peers || (has_event r server.events || member r server.handles)
      then some r
      else none

  abbrev pub peer_expired : Option (Peer Addr F) → ℕ → Bool
  peer_expired none now_ms = false
  peer_expired (some peer) now_ms = is_due peer.rto_timer now_ms

  unfoldable pub expired : ServerCore Addr F → ℕ → ℕ → Bool
  expired server now_ms r = peer_expired (get_elem? server.heap r) now_ms

  abbrev pub clear_timer : ℕ → Option (Peer Addr F) → List (Peer Addr F) → List (Peer Addr F)
  clear_timer r none heap = heap
  clear_timer r (some peer) heap = set heap r (record peer { rto_timer = none })

  unfoldable pub clear_timers : List ℕ → List (Peer Addr F) → List (Peer Addr F)
  clear_timers [] heap = heap
  clear_timers (r ∷ rest) heap = clear_timers rest (clear_timer r (get_elem? heap r) heap)

  -- The peers that are signalled are those with a timer that is due as the wheel comes by. A peer
  -- is in the queue once, so that it is tested before it is taken away.
  unfoldable pub step_timer_wheel : ℕ → ServerCore Addr F → Run (List ℕ × ServerCore Addr F)
  unfolding upgrade expired clear_timers test
  step_timer_wheel now_ms server = do
    (queue, signalled) ←
        test (upgrade server) (expired server now_ms) timer_test_limit server.timer_queue
    done (
      signalled,
      record server { timer_queue = queue; heap = clear_timers signalled server.heap },
    )

  unfoldable pub next_timer_timeout : ServerCore Addr F → Option ℕ
  next_timer_timeout server =
      if ltb 0 (length server.timer_queue) then some timer_test_interval_ms else none

  module _ (same : Discrete Addr) ⦃f : Float F⦄ (random : ℕ → Bool) where
    -- The peer's own entry goes when its connection has ended.
    unfoldable pub settle : TimeoutAction → ℕ → ServerCore Addr F → Run (ServerCore Addr F)
    unfolding remove
    settle continue peer_ref server = done server
    settle terminate peer_ref server = do
      peer ← read (get_elem? server.heap peer_ref)
      done (record server { peers = remove same peer.addr server.peers })

    -- `clock` is the time that each peer reads.
    unfoldable pub handle_expired : (ℕ → ℕ) → List ℕ → ServerCore Addr F → Run (ServerCore Addr F)
    unfolding handle_rto_timer settle
    handle_expired clock [] server = done server
    handle_expired clock (peer_ref ∷ rest) server = do
      (server1, action) ← handle_rto_timer random peer_ref (clock peer_ref) server
      server2 ← settle action peer_ref server1
      handle_expired clock rest server2

    unfoldable pub handle_timeouts : ℕ → (ℕ → ℕ) → ServerCore Addr F → Run (ServerCore Addr F)
    unfolding step_timer_wheel handle_expired
    handle_timeouts now_ms clock server = do
      (signalled, server') ← step_timer_wheel now_ms server
      handle_expired clock signalled server'
