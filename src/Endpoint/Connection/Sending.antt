-- ===== src/Endpoint/Connection/Sending.antt =====
-- The frames that endpoint/mod.rs sends. `random` is the sequence of the bits drawn.
use redpine_rs.Common.{
  Option, ℕ, zero, suc, ◌+◌, Bool, true, false, ◌&&◌, ◌||◌, not, none, some, ◌++◌, ltb, leb,
  if◌then◌else◌, Run, done, panic, unfinished, assert, ◌>>=◌, ◌>>◌, length, drop,
}
use redpine_rs.Frame.{
  FrameType, stream_segment, stream_ack, stream_segment_ack, StreamAck, StreamSegmentHeader,
}
use redpine_rs.Frame.Block.{block_serial, stream_ack_block, stream_segment_header_block}
use redpine_rs.Frame.Envelope.{
  SimpleFrame, simple_write, FrameWriter, frame_writer, frame_write, finalize,
}
use redpine_rs.Frame.Envelope.Simple.{close_frame, close_ack_frame, stream_sync_frame}
use redpine_rs.Endpoint.Host.{send_frame, Host, call}
use redpine_rs.Endpoint.FragmentQueues.{data_ready, flush}
use redpine_rs.Endpoint.AimdReno.{cwnd}
use redpine_rs.Endpoint.SegmentRx.{next_ack_info}
use redpine_rs.Endpoint.SegmentTx.{compute_next_nonce, can_send, mark_sent}
use redpine_rs.Endpoint.Connection.{RttTimerState, RtoTimerState, Endpoint, arm_rto_timer, later}

-- the `match` on what the frame will carry
unfoldable pub stream_frame_type : Bool → Bool → Run FrameType
stream_frame_type false true = done stream_segment
stream_frame_type true false = done stream_ack
stream_frame_type true true = done stream_segment_ack
stream_frame_type false false = panic

module _ {F : Type 0} where
  -- `ctx.send_frame(frame.write(&mut self.tx_buffer))`: the frame is the front of the buffer.
  unfoldable pub send_simple :
      {A : Type 0} → SimpleFrame A → A → Endpoint F → Host → Run (Endpoint F × Host)
  send_simple frame_kind obj ep host = do
    frame ← simple_write frame_kind obj ep.tx_buffer
    done (
      record ep { tx_buffer = frame ++ drop (length frame) ep.tx_buffer },
      call (send_frame frame) host,
    )

  unfoldable pub send_close_frame : Endpoint F → Host → Run (Endpoint F × Host)
  unfolding send_simple
  send_close_frame ep host =
      send_simple close_frame (record { remote_nonce = ep.remote_nonce }) ep host

  unfoldable pub send_close_ack_frame : Endpoint F → Host → Run (Endpoint F × Host)
  unfolding send_simple
  send_close_ack_frame ep host =
      send_simple close_ack_frame (record { remote_nonce = ep.remote_nonce }) ep host

  unfoldable pub send_stream_sync_frame : ℕ → Endpoint F → Host → Run (Endpoint F × Host)
  unfolding send_simple
  send_stream_sync_frame next_segment_id ep host =
      send_simple stream_sync_frame (record { next_segment_id = next_segment_id }) ep host

  unfoldable pub ack_of : Bool → Endpoint F → StreamAck
  ack_of ack_rel ep =
      let (segment_history, segment_checksum) = next_ack_info ep.segment_rx in
      record {
        segment_id = ep.segment_rx.window.base_id;
        segment_history = segment_history;
        segment_checksum = segment_checksum;
        rel_fragment_id = if ack_rel then some ep.reliable_rx.next_fragment_id else none;
      }

  -- `if send_ack`: the answer of `write` is not used
  unfoldable pub write_ack : Bool → Bool → Endpoint F → FrameWriter → Run FrameWriter
  unfolding ack_of
  write_ack false ack_rel ep fw = done fw
  write_ack true ack_rel ep fw = do
    (written, fw') ← frame_write (block_serial stream_ack_block) (ack_of ack_rel ep) fw
    done fw'

  -- the timers that a segment starts, where they do not run yet
  abbrev pub start_rto_timer : Option RtoTimerState → ℕ → Endpoint F → Host → Endpoint F × Host
  start_rto_timer none now_ms ep host = arm_rto_timer now_ms ep host
  start_rto_timer (some timer) now_ms ep host = (ep, host)

  abbrev pub start_rtt_timer : Option RttTimerState → ℕ → ℕ → Endpoint F → Endpoint F
  start_rtt_timer none segment_id now_ms ep = record ep {
    rtt_timer_state = some (record {
      segment_id = segment_id;
      send_time_ms = now_ms;
      expire_time_ms = later now_ms ep.rto_ms;
    });
  }
  start_rtt_timer (some timer) segment_id now_ms ep = ep

  module _ (random : ℕ → Bool) where
    -- `if send_data`
    unfoldable pub write_data :
        Bool → ℕ → Endpoint F → Host → FrameWriter → Run (Endpoint F × Host × FrameWriter)
    write_data false now_ms ep host fw = done (ep, host, fw)
    write_data true now_ms ep host fw = do
      let segment_id = ep.segment_tx.next_id
      (tx, nonce) ← compute_next_nonce (random host.draws) ep.segment_tx
      let header : StreamSegmentHeader = record { id = segment_id; nonce = nonce }
      (written, fw1) ← frame_write (block_serial stream_segment_header_block) header fw
      (queues, fw2, size_written) ← flush ep.fragment_tx fw1 now_ms
      assert (ltb 0 size_written)
      tx' ← mark_sent tx size_written
      let sent : Endpoint F = record ep { segment_tx = tx'; fragment_tx = queues }
      let (ep', host') =
          start_rto_timer sent.rto_timer_state now_ms sent (record host { draws = host.draws + 1 })
      done (start_rtt_timer ep'.rtt_timer_state segment_id now_ms ep', host', fw2)

    -- a round of the `loop` that sends a frame
    unfoldable pub send_stream_frame :
        Bool → Bool → Bool → ℕ → Endpoint F → Host → Run (Endpoint F × Host)
    unfolding stream_frame_type write_ack write_data
    send_stream_frame send_ack send_data ack_rel now_ms ep host = do
      frame_type ← stream_frame_type send_ack send_data
      fw ← frame_writer ep.tx_buffer frame_type
      fw1 ← write_ack send_ack ack_rel ep fw
      (ep', host', fw2) ← write_data send_data now_ms ep host fw1
      (frame, buffer) ← finalize fw2
      done (record ep' { tx_buffer = buffer }, call (send_frame frame) host')

    -- whether a round sends data, once expired fragments are gone
    unfoldable pub sends_data : Endpoint F → Bool → Bool
    sends_data ep ready =
        can_send ep.segment_tx && not (leb (cwnd ep.cc_state) ep.segment_tx.transit_total) && ready

    -- the `loop`. A round but the first sends data and takes a place of the segment window.
    unfoldable pub flush_stream_loop :
        ℕ → Bool → Bool → ℕ → Endpoint F → Host → Run (Endpoint F × Host)
    unfolding send_stream_frame sends_data
    flush_stream_loop zero send_ack ack_rel now_ms ep host = unfinished
    flush_stream_loop (suc rounds) send_ack ack_rel now_ms ep host =
        let (queues, ready) = data_ready ep.fragment_tx now_ms in
        let ep1 = record ep { fragment_tx = queues } in
        let send_data = sends_data ep1 ready in
        if send_ack || send_data
        then (do
          (ep2, host2) ← send_stream_frame send_ack send_data ack_rel now_ms ep1 host
          flush_stream_loop rounds false ack_rel now_ms ep2 host2)
        else done (ep1, host)

    unfoldable pub flush_stream : Bool → Bool → ℕ → Endpoint F → Host → Run (Endpoint F × Host)
    unfolding flush_stream_loop
    flush_stream send_ack ack_rel now_ms ep host =
        flush_stream_loop (ep.segment_tx.size + 2) send_ack ack_rel now_ms ep host
