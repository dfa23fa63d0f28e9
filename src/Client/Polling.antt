-- ===== src/Client/Polling.antt =====
-- How the program gets a client's events (client.rs): each call reads the frames that are there,
-- with the time at which each is handled, then looks at the timer, and takes the oldest event.
use redpine_rs.Common.{
  ◌-◌, ltb, ◌&&◌, ℕ, ◌-◌, ◌∷◌, [], Bool, true, false, none, some, Option, List, if◌then◌else◌, Run,
  done, unfinished, ◌>>=◌,
}
use redpine_rs.Endpoint.Float.{Float}
use redpine_rs.Client.{ClientCore, Event}
use redpine_rs.Client.Handling.{handle_frame, process_timeouts}

-- What comes in while a call waits once: the frames that the socket gives before it has no more, with
-- the time of each, the time after them, and the milliseconds that went by.
pub record Round : Type 0 where
  pub frames : List (List ℕ × ℕ)
  pub now_ms : ℕ
  pub elapsed_ms : ℕ

-- `next_timer_timeout` of a client, the longest that a round waits
unfoldable pub next_timer_timeout : {F : Type 0} → ClientCore F → ℕ → Option ℕ
next_timer_timeout client now_ms = elim client.rto_timer [
  | none ↦ none
  | some t_ms ↦ some (t_ms - now_ms)
]

module _ {F : Type 0} where
  -- `events.pop_front()`
  abbrev pub pop_from : List Event → ClientCore F → Option Event × ClientCore F
  pop_from [] client = (none, client)
  pop_from (event ∷ rest) client = (some event, record client { events = rest })

  unfoldable pub pop_event : ClientCore F → Option Event × ClientCore F
  pop_event client = pop_from client.events client

  -- `if let Some(event) = ...` in a loop, with what the loop does otherwise
  abbrev pub pop_or :
      List Event
      → ClientCore F
      → Run (Option Event × ClientCore F)
      → Run (Option Event × ClientCore F)
  pop_or [] client otherwise = otherwise
  pop_or (event ∷ rest) client otherwise = done (some event, record client { events = rest })

  abbrev pub no_events : ClientCore F → Bool
  no_events client = elim client.events [ [] ↦ true | event ∷ rest ↦ false ]

  module _ ⦃f : Float F⦄ (random : ℕ → Bool) where
    -- `handle_frames`, and `handle_frames_wait` with the frame that it waits for
    unfoldable pub handle_frames : List (List ℕ × ℕ) → ClientCore F → Run (ClientCore F)
    handle_frames [] client = done client
    handle_frames ((frame_bytes, now_ms) ∷ rest) client = do
      client' ← handle_frame random frame_bytes now_ms client
      handle_frames rest client'

    unfoldable pub poll_round : Round → ClientCore F → Run (ClientCore F)
    unfolding handle_frames
    poll_round round client = do
      client' ← handle_frames round.frames client
      process_timeouts random round.now_ms client'

    unfoldable pub poll_event : Round → ClientCore F → Run (Option Event × ClientCore F)
    unfolding poll_round pop_event
    poll_event round client = do
      client' ← (if no_events client then poll_round round client else done client)
      done (pop_event client')

    -- the `loop` of `wait_event`, as long as there are rounds
    unfoldable pub wait_event : List Round → ClientCore F → Run (Option Event × ClientCore F)
    unfolding poll_round
    wait_event [] client = unfinished
    wait_event (round ∷ rounds) client = do
      client' ← poll_round round client
      pop_or client'.events client' (wait_event rounds client')

    -- the `loop` of `wait_event_timeout`
    unfoldable pub wait_loop : ℕ → List Round → ClientCore F → Run (ClientCore F)
    unfolding poll_round
    wait_loop remaining_ms [] client = unfinished
    wait_loop remaining_ms (round ∷ rounds) client = do
      client' ← poll_round round client
      (if no_events client' && ltb round.elapsed_ms remaining_ms
          then wait_loop (remaining_ms - round.elapsed_ms) rounds client'
          else done client')

    unfoldable pub wait_event_timeout :
        ℕ → List Round → ClientCore F → Run (Option Event × ClientCore F)
    unfolding wait_loop pop_event
    wait_event_timeout timeout_ms rounds client = do
      client' ← (if no_events client then wait_loop timeout_ms rounds client else done client)
      done (pop_event client')
