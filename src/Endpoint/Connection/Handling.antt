-- ===== src/Endpoint/Connection/Handling.antt =====
-- The frames that an endpoint receives (`handle_frame` of endpoint/mod.rs), what the program asks of
-- it, and how a connection ends.
use redpine_rs.Common.{
  Option, ℕ, Bool, true, false, none, some, List, ◌==◌, if◌then◌else◌, Run, done, panic, ◌>>=◌,
}
use redpine_rs.Frame.{
  StreamSync, FrameType, stream_segment, stream_ack, stream_segment_ack, stream_sync, close,
  close_ack, StreamAck, StreamSegmentHeader,
}
use redpine_rs.Frame.Block.{
  block_serial, stream_ack_block, stream_segment_header_block, stream_sync_block,
}
use redpine_rs.Frame.Envelope.{
  PayloadReader, payload_reader, payload_read, remaining_bytes, simple_read,
}
use redpine_rs.Frame.Envelope.Simple.{close_frame, close_ack_frame}
use redpine_rs.Buffer.Unreliable
use redpine_rs.Endpoint.Host.{Host, call, on_disconnect, set_rto_timer}
use redpine_rs.Endpoint.Float.{Float}
use redpine_rs.Endpoint.FragmentQueues
use redpine_rs.Endpoint.AimdReno
use redpine_rs.Endpoint.SegmentRx
use redpine_rs.Endpoint.SegmentTx
use redpine_rs.Endpoint.Connection.{
  Endpoint, StateId, pre_init, zombie, active, closed, closing, is_active, update_rtt,
  update_rto_timer, arm_rto_timer, later, disconnect_timeout_ms,
}
use redpine_rs.Endpoint.Connection.Receiving.{Inbox, receive_segments}
use redpine_rs.Endpoint.Connection.Sending.{flush_stream, send_close_frame, send_close_ack_frame}

-- `CloseFrame::read` and the test of its nonce
unfoldable pub validate_close_frame : ℕ → List ℕ → Run Bool
validate_close_frame local_nonce payload_bytes = do
  read ← simple_read close_frame payload_bytes
  elim read [ none ↦ done false | some frame ↦ done (frame.remote_nonce == local_nonce) ]

unfoldable pub validate_close_ack_frame : ℕ → List ℕ → Run Bool
validate_close_ack_frame local_nonce payload_bytes = do
  read ← simple_read close_ack_frame payload_bytes
  elim read [ none ↦ done false | some frame ↦ done (frame.remote_nonce == local_nonce) ]

-- the `match` on the type: whether the frame has an ack, and whether it has data
unfoldable pub stream_parts : FrameType → Run (Bool × Bool)
stream_parts stream_segment = done (false, true)
stream_parts stream_ack = done (true, false)
stream_parts stream_segment_ack = done (true, true)
stream_parts _ = panic

module _ {F : Type 0} where
  -- the variables that the callback of `receive` and of `sync` changes
  abbrev pub inbox : Endpoint F → Host → Inbox
  inbox ep host = record {
    unreliable_rx = ep.unreliable_rx;
    reliable_rx = ep.reliable_rx;
    host = host;
    send_ack = false;
    ack_rel = false;
  }

  abbrev pub take_inbox : Endpoint F → Inbox → Endpoint F
  take_inbox ep box = record ep { unreliable_rx = box.unreliable_rx; reliable_rx = box.reliable_rx }

  -- `if let Some(ack)`
  unfoldable pub handle_ack :
      ⦃f : Float F⦄ → StreamAck → ℕ → Endpoint F → Host → Run (Endpoint F × Host)
  handle_ack ack now_ms ep host = do
    cc_state ← AimdReno.handle_ack ep.cc_state
    (tx, dropped) ←
        SegmentTx.acknowledge ep.segment_tx ack.segment_id ack.segment_history ack.segment_checksum
    queues ← FragmentQueues.acknowledge ep.fragment_tx ack.rel_fragment_id
    let acked = record ep {
      segment_tx = tx;
      fragment_tx = queues;
      cc_state = if dropped then AimdReno.handle_drop cc_state else cc_state;
    }
    done (update_rto_timer ack.segment_id now_ms (update_rtt ack.segment_id now_ms acked) host)

  -- `if let Some(segment_header)`: with the two flags that the callback sets
  unfoldable pub handle_segment :
      StreamSegmentHeader → List ℕ → Endpoint F → Host → Run (Endpoint F × Inbox)
  unfolding receive_segments
  handle_segment header segment_bytes ep host = do
    (segment_rx, segments, len) ←
        SegmentRx.receive ep.segment_rx header.id header.nonce segment_bytes
    box ← receive_segments segments (inbox ep host)
    done (record (take_inbox ep box) { segment_rx = segment_rx }, box)

  -- the data of a segment, if its header could be read, and the flush after it
  unfoldable pub handle_header :
      (ℕ → Bool)
      → Option StreamSegmentHeader
      → PayloadReader
      → ℕ
      → Endpoint F
      → Host
      → Run (Endpoint F × Host)
  unfolding handle_segment flush_stream
  handle_header random none reader now_ms ep host = flush_stream random false false now_ms ep host
  handle_header random (some header) reader now_ms ep host = do
    segment_bytes ← remaining_bytes reader
    (ep', box) ← handle_segment header segment_bytes ep host
    flush_stream random box.send_ack box.ack_rel now_ms ep' box.host

  -- `if read_data`, and the flush after it
  unfoldable pub handle_stream_data :
      (ℕ → Bool) → Bool → PayloadReader → ℕ → Endpoint F → Host → Run (Endpoint F × Host)
  unfolding handle_header flush_stream
  handle_stream_data random false reader now_ms ep host =
      flush_stream random false false now_ms ep host
  handle_stream_data random true reader now_ms ep host = do
    (read, reader') ← payload_read (block_serial stream_segment_header_block) reader
    handle_header random read reader' now_ms ep host

  module _ ⦃f : Float F⦄ (random : ℕ → Bool) where
    -- the ack, if it could be read, and what comes after it
    unfoldable pub handle_stream_ack :
        Option StreamAck → Bool → PayloadReader → ℕ → Endpoint F → Host → Run (Endpoint F × Host)
    unfolding handle_ack handle_stream_data
    handle_stream_ack none read_data reader now_ms ep host = done (ep, host)
    handle_stream_ack (some ack) read_data reader now_ms ep host = do
      (ep', host') ← handle_ack ack now_ms ep host
      handle_stream_data random read_data reader now_ms ep' host'

    -- the frame, by what it has
    unfoldable pub handle_parts :
        Bool → Bool → PayloadReader → ℕ → Endpoint F → Host → Run (Endpoint F × Host)
    unfolding handle_stream_ack handle_stream_data
    handle_parts false read_data reader now_ms ep host =
        handle_stream_data random read_data reader now_ms ep host
    handle_parts true read_data reader now_ms ep host = do
      (read, reader') ← payload_read (block_serial stream_ack_block) reader
      handle_stream_ack read read_data reader' now_ms ep host

    unfoldable pub handle_stream_frame :
        FrameType → List ℕ → ℕ → Endpoint F → Host → Run (Endpoint F × Host)
    unfolding stream_parts handle_parts
    handle_stream_frame frame_type payload_bytes now_ms ep host = do
      (read_ack, read_data) ← stream_parts frame_type
      handle_parts read_ack read_data (payload_reader payload_bytes) now_ms ep host

  -- `if let Some(sync)`: the flags that the callback would set are not used
  unfoldable pub handle_sync :
      (ℕ → Bool) → Option StreamSync → ℕ → Endpoint F → Host → Run (Endpoint F × Host)
  unfolding receive_segments flush_stream
  handle_sync random none now_ms ep host = done (ep, host)
  handle_sync random (some sync) now_ms ep host = do
    let (segment_rx, segments) = SegmentRx.sync ep.segment_rx sync.next_segment_id
    box ← receive_segments segments (inbox ep host)
    let synced : Endpoint F = record ep {
      segment_rx = segment_rx;
      unreliable_rx = Unreliable.reset box.unreliable_rx;
      reliable_rx = box.reliable_rx;
    }
    flush_stream random true true now_ms synced box.host

  unfoldable pub handle_stream_sync_frame :
      (ℕ → Bool) → List ℕ → ℕ → Endpoint F → Host → Run (Endpoint F × Host)
  unfolding handle_sync
  handle_stream_sync_frame random payload_bytes now_ms ep host = do
    (read, reader) ← payload_read (block_serial stream_sync_block) (payload_reader payload_bytes)
    handle_sync random read now_ms ep host

  unfoldable pub enter_closing : ℕ → Endpoint F → Host → Run (Endpoint F × Host)
  unfolding send_close_frame
  enter_closing now_ms ep host =
      let (ep', host') = arm_rto_timer now_ms (record ep { state_id = closing }) host in
      send_close_frame ep' host'

  unfoldable pub enter_closed : ℕ → Endpoint F → Host → Endpoint F × Host
  enter_closed now_ms ep host = (
    record ep { state_id = closed; rto_timer_state = none },
    call (set_rto_timer (later now_ms disconnect_timeout_ms)) (call on_disconnect host),
  )

  -- `Endpoint::flush`
  unfoldable pub flush : (ℕ → Bool) → ℕ → Endpoint F → Host → Run (Endpoint F × Host)
  unfolding flush_stream
  flush random now_ms ep host =
      if is_active ep.state_id
      then flush_stream random false false now_ms ep host
      else done (ep, host)

  unfoldable pub disconnect : ℕ → Endpoint F → Host → Run (Endpoint F × Host)
  unfolding enter_closing
  disconnect now_ms ep host =
      if is_active ep.state_id then enter_closing now_ms ep host else done (ep, host)

  -- a `Close` frame of a connection that is up, or that is closing
  unfoldable pub handle_close : List ℕ → ℕ → Endpoint F → Host → Run (Endpoint F × Host)
  unfolding validate_close_frame send_close_ack_frame enter_closed
  handle_close payload_bytes now_ms ep host = do
    valid ← validate_close_frame ep.local_nonce payload_bytes
    (if valid
        then (do (ep', host') ← send_close_ack_frame ep host; done (enter_closed now_ms ep' host'))
        else done (ep, host))

  unfoldable pub handle_close_ack : List ℕ → ℕ → Endpoint F → Host → Run (Endpoint F × Host)
  unfolding validate_close_ack_frame enter_closed
  handle_close_ack payload_bytes now_ms ep host = do
    valid ← validate_close_ack_frame ep.local_nonce payload_bytes
    (if valid then done (enter_closed now_ms ep host) else done (ep, host))

  -- a `Close` frame of a connection that is closed: a further request is acknowledged
  unfoldable pub handle_late_close : List ℕ → Endpoint F → Host → Run (Endpoint F × Host)
  unfolding validate_close_frame send_close_ack_frame
  handle_late_close payload_bytes ep host = do
    valid ← validate_close_frame ep.local_nonce payload_bytes
    (if valid then send_close_ack_frame ep host else done (ep, host))

  module _ ⦃f : Float F⦄ (random : ℕ → Bool) where
    -- the `match` on the type, in each state
    unfoldable pub handle_active :
        FrameType → List ℕ → ℕ → Endpoint F → Host → Run (Endpoint F × Host)
    unfolding handle_stream_frame handle_stream_sync_frame handle_close
    handle_active stream_segment payload_bytes now_ms ep host =
        handle_stream_frame random stream_segment payload_bytes now_ms ep host
    handle_active stream_ack payload_bytes now_ms ep host =
        handle_stream_frame random stream_ack payload_bytes now_ms ep host
    handle_active stream_segment_ack payload_bytes now_ms ep host =
        handle_stream_frame random stream_segment_ack payload_bytes now_ms ep host
    handle_active stream_sync payload_bytes now_ms ep host =
        handle_stream_sync_frame random payload_bytes now_ms ep host
    handle_active close payload_bytes now_ms ep host = handle_close payload_bytes now_ms ep host
    handle_active _ payload_bytes now_ms ep host = done (ep, host)

    unfoldable pub handle_closing :
        FrameType → List ℕ → ℕ → Endpoint F → Host → Run (Endpoint F × Host)
    unfolding handle_close handle_close_ack
    handle_closing close payload_bytes now_ms ep host = handle_close payload_bytes now_ms ep host
    handle_closing close_ack payload_bytes now_ms ep host =
        handle_close_ack payload_bytes now_ms ep host
    handle_closing _ payload_bytes now_ms ep host = done (ep, host)

    unfoldable pub handle_closed :
        FrameType → List ℕ → ℕ → Endpoint F → Host → Run (Endpoint F × Host)
    unfolding handle_late_close
    handle_closed close payload_bytes now_ms ep host = handle_late_close payload_bytes ep host
    handle_closed _ payload_bytes now_ms ep host = done (ep, host)

    -- the `match` on the state
    unfoldable pub handle_frame_in :
        StateId → FrameType → List ℕ → ℕ → Endpoint F → Host → Run (Endpoint F × Host)
    unfolding handle_active handle_closing handle_closed
    handle_frame_in active frame_type payload_bytes now_ms ep host =
        handle_active frame_type payload_bytes now_ms ep host
    handle_frame_in closing frame_type payload_bytes now_ms ep host =
        handle_closing frame_type payload_bytes now_ms ep host
    handle_frame_in closed frame_type payload_bytes now_ms ep host =
        handle_closed frame_type payload_bytes now_ms ep host
    handle_frame_in pre_init frame_type payload_bytes now_ms ep host = done (ep, host)
    handle_frame_in zombie frame_type payload_bytes now_ms ep host = done (ep, host)

    unfoldable pub handle_frame :
        FrameType → List ℕ → ℕ → Endpoint F → Host → Run (Endpoint F × Host)
    unfolding handle_frame_in
    handle_frame frame_type payload_bytes now_ms ep host =
        handle_frame_in ep.state_id frame_type payload_bytes now_ms ep host
