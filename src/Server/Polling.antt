-- ===== src/Server/Polling.antt =====
-- How the program gets a server's events (server/mod.rs). With an event it gets a handle of the peer.
use redpine_rs.Common.{
  ℕ, List, [], ◌∷◌, Bool, true, false, ◌&&◌, ◌-◌, Option, none, some, ltb, if◌then◌else◌, Run, done,
  unfinished, ◌>>=◌, length,
}
use redpine_rs.Endpoint.Float.{Float}
use redpine_rs.Server.{ServerCore, Event}
use redpine_rs.Server.Frames.{handle_server_frame}
use redpine_rs.Server.Timers.{handle_timeouts, peer_of}

-- A frame that comes in, the time that its handler reads, and the nonce that the server would draw
pub record Arrival (Addr : Type 0) : Type 0 where
  pub frame_bytes : List ℕ
  pub sender_addr : Addr
  pub server_nonce : ℕ
  pub now_ms : ℕ

-- What comes in while a call waits once; `clock` is the time that each peer reads as its timer fires.
pub record Round (Addr : Type 0) : Type 0 where
  pub frames : List (Arrival Addr)
  pub now_ms : ℕ
  pub clock : ℕ → ℕ
  pub elapsed_ms : ℕ

module _ {Addr F : Type 0} where
  -- `events.pop_front()`
  abbrev pub pop_from : List Event → ServerCore Addr F → Option Event × ServerCore Addr F
  pop_from [] server = (none, server)
  pop_from (event ∷ rest) server =
      (some event, record server { events = rest; handles = peer_of event ∷ server.handles })

  unfoldable pub pop_event : ServerCore Addr F → Option Event × ServerCore Addr F
  pop_event server = pop_from server.events server

  -- `if let Some(event) = ...` in a loop, with what the loop does otherwise
  abbrev pub pop_or :
      List Event
      → ServerCore Addr F
      → Run (Option Event × ServerCore Addr F)
      → Run (Option Event × ServerCore Addr F)
  pop_or [] server otherwise = otherwise
  pop_or (event ∷ rest) server otherwise = done (pop_from (event ∷ rest) server)

  abbrev pub no_events : ServerCore Addr F → Bool
  no_events server = elim server.events [ [] ↦ true | event ∷ rest ↦ false ]

  unfoldable pub peer_count : ServerCore Addr F → ℕ
  peer_count server = length server.peers

  module _ (same : Discrete Addr) (compute : Addr → ℕ → ℕ → ℕ → ℕ) ⦃f : Float F⦄
      (random : ℕ → Bool) where
    unfoldable pub handle_frames : List (Arrival Addr) → ServerCore Addr F → Run (ServerCore Addr F)
    handle_frames [] server = done server
    handle_frames (a ∷ rest) server = do
      server' ←
          handle_server_frame same compute random a.frame_bytes a.sender_addr a.server_nonce
            a.now_ms server
      handle_frames rest server'

    unfoldable pub poll_round : Round Addr → ServerCore Addr F → Run (ServerCore Addr F)
    unfolding handle_frames
    poll_round round server = do
      server' ← handle_frames round.frames server
      handle_timeouts same random round.now_ms round.clock server'

    unfoldable pub poll_event :
        Round Addr → ServerCore Addr F → Run (Option Event × ServerCore Addr F)
    unfolding poll_round pop_event
    poll_event round server = do
      server' ← (if no_events server then poll_round round server else done server)
      done (pop_event server')

    -- the `loop` of `wait_event`, as long as there are rounds
    unfoldable pub wait_event :
        List (Round Addr) → ServerCore Addr F → Run (Option Event × ServerCore Addr F)
    unfolding poll_round
    wait_event [] server = unfinished
    wait_event (round ∷ rounds) server = do
      server' ← poll_round round server
      pop_or server'.events server' (wait_event rounds server')

    -- the `loop` of `wait_event_timeout`
    unfoldable pub wait_loop : ℕ → List (Round Addr) → ServerCore Addr F → Run (ServerCore Addr F)
    unfolding poll_round
    wait_loop remaining_ms [] server = unfinished
    wait_loop remaining_ms (round ∷ rounds) server = do
      server' ← poll_round round server
      (if no_events server' && ltb round.elapsed_ms remaining_ms
          then wait_loop (remaining_ms - round.elapsed_ms) rounds server'
          else done server')

    unfoldable pub wait_event_timeout :
        ℕ → List (Round Addr) → ServerCore Addr F → Run (Option Event × ServerCore Addr F)
    unfolding wait_loop pop_event
    wait_event_timeout timeout_ms rounds server = do
      server' ← (if no_events server then wait_loop timeout_ms rounds server else done server)
      done (pop_event server')
