-- ===== src/Endpoint/Connection/Operations.antt =====
-- The operations of an endpoint in endpoint/mod.rs, one by one and in any order: what the program
-- around it can count on.
use redpine_rs.Common.{ℕ, ◌≡◌, refl, ap, Bool, List, [], ◌∷◌, arith, Run, done, ◌>>=◌}
use redpine_rs.Common.Ensures.{Ensures, Ensures-done, Ensures-bind, Ensures-any}
use redpine_rs.Frame.{
  FrameType, handshake_alpha, handshake_alpha_ack, handshake_beta, handshake_beta_ack, close,
  close_ack, stream_segment, stream_ack, stream_segment_ack, stream_sync,
}
use redpine_rs.Endpoint.Host.{Host}
use redpine_rs.Endpoint.Float.{Float}
use redpine_rs.Endpoint.FragmentQueues.{SendMode}
use redpine_rs.Endpoint.Connection.{
  Endpoint, Config, endpoint, StateId, pre_init, active, closing, closed, zombie, TimeoutAction,
  init, enqueue,
}
use redpine_rs.Endpoint.FragmentQueues.{FragmentQueues, fragment_queues}
use redpine_rs.Endpoint.SegmentTx.{SegmentTx, segment_tx}
use redpine_rs.Endpoint.AimdReno.{AimdReno, aimd_reno}
use redpine_rs.Buffer.Reliable
use redpine_rs.Buffer.Unreliable
use redpine_rs.Endpoint.Connection.{segment_window_size, fragment_window_size, fragment_size}
use redpine_rs.Endpoint.Connection.Handling.{
  flush, disconnect, handle_active, handle_closing, handle_closed, handle_frame_in, handle_frame,
}
use redpine_rs.Endpoint.Connection.Timeout.{handle_rto_timer}
use redpine_rs.Endpoint.Connection.Quiet.{up}
use redpine_rs.Endpoint.Connection.Streams.{
  handle_stream_frame-Stays, handle_stream_sync_frame-Stays,
}
use redpine_rs.Endpoint.Connection.Firing.{Fired, handle_rto_timer-Fires}
use redpine_rs.Endpoint.Connection.Lifecycle.{
  phase_of, Moves, run_phase, IsOrderly, Stepped, Stepped-IsOrderly, Steps, same-Stepped,
  init-Steps, enqueue-Stepped, Stays-up, flush-Steps, disconnect-Steps, handle_close-Steps,
  handle_close_ack-Steps, handle_late_close-Steps,
}

module _ {F : Type 0} where
  nothing_done : (ep : Endpoint F) (host : Host) → Steps ep host (done (ep, host))
  nothing_done ep host = Ensures-done _ (ep, host) (same-Stepped ep host)

  module _ ⦃f : Float F⦄ (random : ℕ → Bool) where
    handle_active-Steps :
        (frame_type : FrameType) (payload_bytes : List ℕ) (now_ms : ℕ) (ep : Endpoint F)
        (host : Host)
        → phase_of ep.state_id ≡ up
        → Steps ep host (handle_active random frame_type payload_bytes now_ms ep host)
    unfolding handle_active
    handle_active-Steps stream_segment payload_bytes now_ms ep host e =
        Stays-up ep host _ e
          (handle_stream_frame-Stays random stream_segment payload_bytes now_ms ep host)
    handle_active-Steps stream_ack payload_bytes now_ms ep host e =
        Stays-up ep host _ e
          (handle_stream_frame-Stays random stream_ack payload_bytes now_ms ep host)
    handle_active-Steps stream_segment_ack payload_bytes now_ms ep host e =
        Stays-up ep host _ e
          (handle_stream_frame-Stays random stream_segment_ack payload_bytes now_ms ep host)
    handle_active-Steps stream_sync payload_bytes now_ms ep host e =
        Stays-up ep host _ e (handle_stream_sync_frame-Stays random payload_bytes now_ms ep host)
    handle_active-Steps close payload_bytes now_ms ep host e =
        handle_close-Steps payload_bytes now_ms ep host e
    handle_active-Steps close_ack payload_bytes now_ms ep host e = nothing_done ep host
    handle_active-Steps handshake_alpha payload_bytes now_ms ep host e = nothing_done ep host
    handle_active-Steps handshake_alpha_ack payload_bytes now_ms ep host e = nothing_done ep host
    handle_active-Steps handshake_beta payload_bytes now_ms ep host e = nothing_done ep host
    handle_active-Steps handshake_beta_ack payload_bytes now_ms ep host e = nothing_done ep host

    handle_closing-Steps :
        (frame_type : FrameType) (payload_bytes : List ℕ) (now_ms : ℕ) (ep : Endpoint F)
        (host : Host)
        → phase_of ep.state_id ≡ up
        → Steps ep host (handle_closing random frame_type payload_bytes now_ms ep host)
    unfolding handle_closing
    handle_closing-Steps close payload_bytes now_ms ep host e =
        handle_close-Steps payload_bytes now_ms ep host e
    handle_closing-Steps close_ack payload_bytes now_ms ep host e =
        handle_close_ack-Steps payload_bytes now_ms ep host e
    handle_closing-Steps _ payload_bytes now_ms ep host e = nothing_done ep host

    handle_closed-Steps :
        (frame_type : FrameType) (payload_bytes : List ℕ) (now_ms : ℕ) (ep : Endpoint F)
        (host : Host)
        → ep.state_id ≡ closed
        → Steps ep host (handle_closed random frame_type payload_bytes now_ms ep host)
    unfolding handle_closed
    handle_closed-Steps close payload_bytes now_ms ep host e =
        handle_late_close-Steps payload_bytes ep host e
    handle_closed-Steps _ payload_bytes now_ms ep host e = nothing_done ep host

    handle_frame-Steps :
        (s : StateId) (frame_type : FrameType) (payload_bytes : List ℕ) (now_ms : ℕ)
        (ep : Endpoint F) (host : Host)
        → ep.state_id ≡ s
        → Steps ep host (handle_frame_in random s frame_type payload_bytes now_ms ep host)
    unfolding handle_frame_in
    handle_frame-Steps pre_init frame_type payload_bytes now_ms ep host e = nothing_done ep host
    handle_frame-Steps active frame_type payload_bytes now_ms ep host e =
        handle_active-Steps frame_type payload_bytes now_ms ep host (ap phase_of e)
    handle_frame-Steps closing frame_type payload_bytes now_ms ep host e =
        handle_closing-Steps frame_type payload_bytes now_ms ep host (ap phase_of e)
    handle_frame-Steps closed frame_type payload_bytes now_ms ep host e =
        handle_closed-Steps frame_type payload_bytes now_ms ep host e
    handle_frame-Steps zombie frame_type payload_bytes now_ms ep host e = nothing_done ep host

pub endpoint-IsOrderly :
    {F : Type 0} (config : Config) (ep : Endpoint F)
    → endpoint config ≡ done ep
    → IsOrderly ep (record { calls = []; draws = 0 })
unfolding endpoint run_phase
endpoint-IsOrderly {F} config ep made = new.at ep made
  where
    new :
        Ensures
          (λ (ep : Endpoint F). IsOrderly ep (record { calls = []; draws = 0 }))
          (endpoint config)
    new = Ensures-any _ (segment_tx 0 segment_window_size) _ (λ (tx : SegmentTx).
        Ensures-any _ (fragment_queues 0 fragment_window_size fragment_size config.prio_config) _
          (λ (queues : FragmentQueues).
            Ensures-any _ (aimd_reno fragment_size) _ (λ (cc_state : AimdReno).
              Ensures-any _ (Unreliable.rx_buffer 0 fragment_size) _
                (λ (unreliable_rx : Unreliable.RxBuffer).
                  Ensures-any _ (Reliable.rx_buffer 0 fragment_size) _
                    (λ (reliable_rx : Reliable.RxBuffer).
                      Ensures-done _ _
                        (record { phase = refl; rto = (omega arith, omega arith) }))))))

-- What the program asks of an endpoint.
pub data Operation : Type 0 where
  init_with : Operation
  enqueue_packet : List ℕ → SendMode → ℕ → Operation
  flush_at disconnect_at rto_timer_at : ℕ → Operation
  receive_frame : FrameType → List ℕ → ℕ → Operation

module _ {F : Type 0} ⦃f : Float F⦄ (random : ℕ → Bool) where
  unfoldable pub apply : Operation → Endpoint F → Host → Run (Endpoint F × Host)
  apply init_with ep host = init ep host
  apply (enqueue_packet packet_bytes mode now_ms) ep host =
      done (enqueue ep packet_bytes mode now_ms, host)
  apply (flush_at now_ms) ep host = flush random now_ms ep host
  apply (disconnect_at now_ms) ep host = disconnect now_ms ep host
  apply (rto_timer_at now_ms) ep host = do
    (ep', host', action) ← handle_rto_timer random now_ms ep host
    done (ep', host')
  apply (receive_frame frame_type payload_bytes now_ms) ep host =
      handle_frame random frame_type payload_bytes now_ms ep host

  unfoldable pub apply_all : List Operation → Endpoint F → Host → Run (Endpoint F × Host)
  unfolding apply
  apply_all [] ep host = done (ep, host)
  apply_all (op ∷ rest) ep host = do (ep', host') ← apply op ep host; apply_all rest ep' host'

  pub apply-Steps :
      (op : Operation) (ep : Endpoint F) (host : Host) → Steps ep host (apply op ep host)
  unfolding apply handle_frame handle_rto_timer
  apply-Steps init_with ep host = init-Steps ep host
  apply-Steps (enqueue_packet packet_bytes mode now_ms) ep host =
      Ensures-done _ (enqueue ep packet_bytes mode now_ms, host)
        (enqueue-Stepped ep packet_bytes mode now_ms host)
  apply-Steps (flush_at now_ms) ep host = flush-Steps random now_ms ep host
  apply-Steps (disconnect_at now_ms) ep host = disconnect-Steps now_ms ep host
  apply-Steps (rto_timer_at now_ms) ep host =
      Ensures-bind (λ (r : Endpoint F × Host × TimeoutAction). Fired ep host r.0 r.1 r.2) _
        (handle_rto_timer random now_ms ep host) _
        (handle_rto_timer-Fires random ep.state_id now_ms ep host refl)
        (λ (r : Endpoint F × Host × TimeoutAction) q. Ensures-done _ (r.0, r.1) q.stepped)
  apply-Steps (receive_frame frame_type payload_bytes now_ms) ep host =
      handle_frame-Steps random ep.state_id frame_type payload_bytes now_ms ep host refl

  apply_all-Orderly :
      (ops : List Operation) (ep : Endpoint F) (host : Host)
      → IsOrderly ep host
      → Ensures (λ (r : Endpoint F × Host). IsOrderly r.0 r.1) (apply_all ops ep host)
  unfolding apply_all
  apply_all-Orderly [] ep host o = Ensures-done _ (ep, host) o
  apply_all-Orderly (op ∷ rest) ep host o =
      Ensures-bind (λ (r : Endpoint F × Host). Stepped ep host r.0 r.1) _ (apply op ep host) _
        (apply-Steps op ep host)
        (λ (r : Endpoint F × Host) q.
          apply_all-Orderly rest r.0 r.1 (Stepped-IsOrderly ep r.0 host r.1 q o))

  -- Where an operation on an endpoint returns, the state has stayed as it was, or has moved from
  -- `PreInit` to `Active`, from `Active` to `Closing`, from one of the latter two to `Closed` or to
  -- `Zombie`, or from `Closed` to `Zombie`.
  pub apply-Moves :
      (op : Operation) (ep ep' : Endpoint F) (host host' : Host)
      → apply op ep host ≡ done (ep', host')
      → Moves ep.state_id ep'.state_id
  apply-Moves op ep ep' host host' e = ((apply-Steps op ep host).at (ep', host') e).moves

  -- A new endpoint is put through any operations that return. Then its calls to the program are in
  -- order: `on_connect` comes before all others, a packet comes only after it, and `on_disconnect` or
  -- `on_timeout` comes at most once, with no packet after it; the connection is up, over or not yet
  -- made as the state says. The timeout is between 1000 and 60000 milliseconds.
  pub apply_all-IsOrderly :
      (config : Config) (ops : List Operation) (ep ep' : Endpoint F) (host' : Host)
      → endpoint config ≡ done ep
      → apply_all ops ep (record { calls = []; draws = 0 }) ≡ done (ep', host')
      → IsOrderly ep' host'
  apply_all-IsOrderly config ops ep ep' host' made e =
      (apply_all-Orderly ops ep (record { calls = []; draws = 0 })
          (endpoint-IsOrderly config ep made)).at
        (ep', host') e
