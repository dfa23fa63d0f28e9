-- ===== src/Endpoint/Connection/Timeout.antt =====
-- `handle_rto_timer` of endpoint/mod.rs: what an endpoint does when its timer fires. The sum of the
-- timeouts is a `u64` and wraps.
use redpine_rs.Common.{
  ℕ, ◌+◌, ◌*◌, ◌%◌, ◌^◌, Bool, false, Option, none, some, leb, if◌then◌else◌, Run, done, panic,
  ◌>>=◌,
}
use redpine_rs.Endpoint.Host.{Host, call, on_timeout, set_rto_timer}
use redpine_rs.Endpoint.FragmentQueues
use redpine_rs.Endpoint.AimdReno
use redpine_rs.Endpoint.Connection.{
  Endpoint, StateId, RtoTimerState, TimeoutAction, pre_init, active, closing, closed, zombie,
  continue, terminate, later, clamp_rto,
}
use redpine_rs.Endpoint.Connection.Sending.{flush_stream, send_close_frame, send_stream_sync_frame}

-- `rto_sum_ms`, the timeout just over added
abbrev pub timed_out_ms : RtoTimerState → ℕ
timed_out_ms timer = (timer.rto_sum_ms + timer.rto_ms) % 2 ^ 64

module _ {F : Type 0} where
  -- the timeout is longer than the program's: the connection is given up
  unfoldable pub give_up : RtoTimerState → Endpoint F → Host → Endpoint F × Host
  give_up timer ep host = (
    record ep {
      state_id = zombie;
      rto_timer_state = some (record timer { rto_sum_ms = timed_out_ms timer });
    },
    call on_timeout host,
  )

  -- the next timeout is twice as long, within its bounds
  unfoldable pub back_off : RtoTimerState → ℕ → Endpoint F → Host → Endpoint F × Host
  back_off timer now_ms ep host =
      let rto_ms = clamp_rto (ep.rto_ms * 2 % 2 ^ 64) in
      (
        record ep {
          rto_ms = rto_ms;
          rto_timer_state = some (record { rto_ms = rto_ms; rto_sum_ms = timed_out_ms timer });
        },
        call (set_rto_timer (later now_ms rto_ms)) host,
      )

  -- what an active connection does then
  unfoldable pub resynchronize : (ℕ → Bool) → ℕ → Endpoint F → Host → Run (Endpoint F × Host)
  unfolding send_stream_sync_frame flush_stream
  resynchronize random now_ms ep host = do
    let drained = record ep {
      cc_state = AimdReno.handle_timeout ep.cc_state;
      fragment_tx = FragmentQueues.handle_timeout ep.fragment_tx;
    }
    (ep', host') ← send_stream_sync_frame ep.segment_tx.next_id drained host
    flush_stream random false false now_ms ep' host'

  -- the two arms with a timer: `retry` is what the arm does unless it gives up
  unfoldable pub handle_timer :
      (Endpoint F → Host → Run (Endpoint F × Host))
      → Option RtoTimerState
      → ℕ
      → Endpoint F
      → Host
      → Run (Endpoint F × Host × TimeoutAction)
  unfolding give_up back_off
  handle_timer retry none now_ms ep host = panic
  handle_timer retry (some timer) now_ms ep host =
      if leb ep.config.timeout_time_ms (timed_out_ms timer)
      then (let (ep', host') = give_up timer ep host in done (ep', host', terminate))
      else (let (ep', host') = back_off timer now_ms ep host in
          do (ep2, host2) ← retry ep' host'; done (ep2, host2, continue))

  -- the `match` of `handle_rto_timer`
  unfoldable pub handle_rto_timer_in :
      (ℕ → Bool) → StateId → ℕ → Endpoint F → Host → Run (Endpoint F × Host × TimeoutAction)
  unfolding handle_timer resynchronize send_close_frame
  handle_rto_timer_in random active now_ms ep host =
      handle_timer (resynchronize random now_ms) ep.rto_timer_state now_ms ep host
  handle_rto_timer_in random closing now_ms ep host =
      handle_timer send_close_frame ep.rto_timer_state now_ms ep host
  handle_rto_timer_in random closed now_ms ep host =
      done (record ep { state_id = zombie }, host, terminate)
  handle_rto_timer_in random pre_init now_ms ep host = done (ep, host, continue)
  handle_rto_timer_in random zombie now_ms ep host = done (ep, host, continue)

  unfoldable pub handle_rto_timer :
      (ℕ → Bool) → ℕ → Endpoint F → Host → Run (Endpoint F × Host × TimeoutAction)
  unfolding handle_rto_timer_in
  handle_rto_timer random now_ms ep host = handle_rto_timer_in random ep.state_id now_ms ep host
