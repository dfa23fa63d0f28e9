-- ===== src/Endpoint/Connection/Streams.antt =====
-- About the stream frames that endpoint/mod.rs receives, as seen from the state of the connection.
use redpine_rs.Common.{
  ℕ, ◌≡◌, refl, sym, subst, inl, inr, Bool, true, false, Option, none, some, List, [], ◌∷◌, map,
  leb, ◌==◌, if◌then◌else◌, Bool-cases, All,
}
use redpine_rs.Common.Ensures.{Ensures, Ensures-done, Ensures-bind, Ensures-any}
use redpine_rs.Frame.{FrameType, StreamAck, StreamSegmentHeader, StreamSync}
use redpine_rs.Frame.Block.{
  block_serial, stream_ack_block, stream_segment_header_block, stream_sync_block,
}
use redpine_rs.Frame.Envelope.{PayloadReader, payload_reader, payload_read, remaining_bytes}
use redpine_rs.Buffer.Unreliable
use redpine_rs.Endpoint.Host.{on_receive, Host}
use redpine_rs.Endpoint.Float.{Float}
use redpine_rs.Endpoint.SegmentRx
use redpine_rs.Endpoint.SegmentRx.{SegmentRx}
use redpine_rs.Endpoint.SegmentTx
use redpine_rs.Endpoint.SegmentTx.{SegmentTx}
use redpine_rs.Endpoint.AimdReno
use redpine_rs.Endpoint.AimdReno.{AimdReno}
use redpine_rs.Endpoint.FragmentQueues
use redpine_rs.Endpoint.FragmentQueues.{FragmentQueues}
use redpine_rs.Endpoint.Connection.{
  wrapping_add, unset_rto_timer, Endpoint, RttTimerState, RtoTimerState, update_rtt_timer,
  update_rtt_in, update_rtt, update_rto_timer_in, update_rto_timer,
}
use redpine_rs.Endpoint.Connection.Receiving.{Inbox, receive_segments}
use redpine_rs.Endpoint.Connection.Total.{Delivered, receive_segments-Delivered}
use redpine_rs.Endpoint.Connection.Sending.{flush_stream}
use redpine_rs.Endpoint.Connection.Handling.{
  handle_parts, handle_stream_ack, handle_header, inbox, take_inbox, stream_parts, handle_ack,
  handle_segment, handle_stream_data, handle_stream_frame, handle_sync, handle_stream_sync_frame,
}
use redpine_rs.Endpoint.Connection.Quiet.{
  up, Keeps, IsRto, clamp_rto-IsRto, Quiet, Stays, Quiet-silent, Quiet-call, Quiet-trans,
  arm_rto_timer-Quiet, flush_stream-Stays,
}

map-Keeps : (packets : List (List ℕ)) → All (Keeps up) (map on_receive packets)
map-Keeps [] = tt
map-Keeps (packet ∷ rest) = (refl, map-Keeps rest)

receive_segments-Ensures :
    (segments : List (List ℕ)) (box : Inbox)
    → Ensures (λ (after : Inbox). Delivered box after) (receive_segments segments box)
receive_segments-Ensures segments box =
    let (after, e, d) = receive_segments-Delivered segments box in rw e (Ensures-done _ after d)

module _ {F : Type 0} where
  update_rto_timer-Quiet :
      (timer : Option RtoTimerState) (segment_id now_ms : ℕ) (ep : Endpoint F) (host : Host)
      → let (ep', host') = update_rto_timer_in timer segment_id now_ms ep host in
        Quiet up ep host ep' host'
  update_rto_timer-Quiet none segment_id now_ms ep host =
      Quiet-silent up ep ep host host refl (λ k. k) refl
  update_rto_timer-Quiet (some timer) segment_id now_ms ep host =
      elim (Bool-cases (segment_id == ep.segment_tx.next_id)) [
        | inl caught_up ↦
            rw caught_up (Quiet-call up ep _ host _ unset_rto_timer refl (λ k. k) refl refl)
        | inr expected ↦ rw expected (arm_rto_timer-Quiet now_ms ep host)
      ]

  module _ ⦃f : Float F⦄ where
    update_rtt-Quiet :
        (timer : Option RttTimerState) (segment_id now_ms : ℕ) (ep : Endpoint F) (host : Host)
        → Quiet up ep host (update_rtt_in timer segment_id now_ms ep) host
    unfolding update_rtt_timer
    update_rtt-Quiet none segment_id now_ms ep host =
        Quiet-silent up ep ep host host refl (λ k. k) refl
    update_rtt-Quiet (some timer) segment_id now_ms ep host =
        elim (Bool-cases (segment_id == wrapping_add timer.segment_id 1)) [
          | inl answered ↦
              rw answered (Quiet-silent up ep _ host host refl (λ k. clamp_rto-IsRto _) refl)
          | inr other ↦ elim (Bool-cases (leb timer.expire_time_ms now_ms)) [
            | inl expired ↦ rw (other, expired) (Quiet-silent up ep _ host host refl (λ k. k) refl)
            | inr running ↦ rw (other, running) (Quiet-silent up ep ep host host refl (λ k. k) refl)
          ]
        ]

    handle_ack-Stays :
        (ack : StreamAck) (now_ms : ℕ) (ep : Endpoint F) (host : Host)
        → Stays up ep host (handle_ack ack now_ms ep host)
    unfolding handle_ack update_rtt update_rto_timer
    handle_ack-Stays ack now_ms ep host =
        Ensures-any _ (AimdReno.handle_ack ep.cc_state) _ (λ (cc_state : AimdReno).
          Ensures-any _
            (SegmentTx.acknowledge ep.segment_tx ack.segment_id ack.segment_history
              ack.segment_checksum)
            _
            (λ (acked : SegmentTx × Bool).
              Ensures-any _ (FragmentQueues.acknowledge ep.fragment_tx ack.rel_fragment_id) _
                (λ (queues : FragmentQueues).
                  let ep1 : Endpoint F = record ep {
                    segment_tx = acked.0;
                    fragment_tx = queues;
                    cc_state = if acked.1 then AimdReno.handle_drop cc_state else cc_state;
                  } in
                  let ep2 = update_rtt_in ep1.rtt_timer_state ack.segment_id now_ms ep1 in
                  Ensures-done _
                    (update_rto_timer_in ep2.rto_timer_state ack.segment_id now_ms ep2 host)
                    (Quiet-trans (Quiet-silent up ep ep1 host host refl (λ k. k) refl) (
                      Quiet-trans
                        (update_rtt-Quiet ep1.rtt_timer_state ack.segment_id now_ms ep1 host)
                        (update_rto_timer-Quiet ep2.rto_timer_state ack.segment_id now_ms ep2
                          host))))))

  -- What is taken from an inbox, with packets for the program.
  take_inbox-Quiet :
      (ep ep' : Endpoint F) (host : Host) (box : Inbox)
      → Delivered (inbox ep host) box
      → ep'.state_id ≡ ep.state_id
      → ep'.rto_ms ≡ ep.rto_ms
      → Quiet up ep host ep' box.host
  take_inbox-Quiet ep ep' host box d same rto = record {
    state_same = same;
    rto_kept = λ k. subst IsRto (sym rto) k;
    more = map on_receive d.packets;
    calls_lem = d.calls_lem;
    keeps = map-Keeps d.packets;
  }

  handle_segment-Stays :
      (header : StreamSegmentHeader) (segment_bytes : List ℕ) (ep : Endpoint F) (host : Host)
      → Ensures
          (λ (r : Endpoint F × Inbox). Quiet up ep host r.0 r.1.host)
          (handle_segment header segment_bytes ep host)
  unfolding handle_segment
  handle_segment-Stays header segment_bytes ep host =
      Ensures-any _ (SegmentRx.receive ep.segment_rx header.id header.nonce segment_bytes) _
        (λ (received : SegmentRx × List (List ℕ) × ℕ).
          Ensures-bind (λ (after : Inbox). Delivered (inbox ep host) after) _
            (receive_segments received.1 (inbox ep host)) _
            (receive_segments-Ensures received.1 (inbox ep host))
            (λ (box : Inbox) d.
              let ep' : Endpoint F = record (take_inbox ep box) { segment_rx = received.0 } in
              Ensures-done _ (ep', box) (take_inbox-Quiet ep ep' host box d refl refl)))

  -- A step, and a flush of the stream after it.
  then_flush :
      (random : ℕ → Bool) (send_ack ack_rel : Bool) (now_ms : ℕ) (ep ep' : Endpoint F)
      (host host' : Host)
      → Quiet up ep host ep' host'
      → Stays up ep host (flush_stream random send_ack ack_rel now_ms ep' host')
  then_flush random send_ack ack_rel now_ms ep ep' host host' q = record {
    at =
        λ r e. Quiet-trans q ((flush_stream-Stays random send_ack ack_rel now_ms ep' host').at r e);
  }

  handle_header-Stays :
      (random : ℕ → Bool) (read : Option StreamSegmentHeader) (reader : PayloadReader) (now_ms : ℕ)
      (ep : Endpoint F) (host : Host)
      → Stays up ep host (handle_header random read reader now_ms ep host)
  unfolding handle_header
  handle_header-Stays random none reader now_ms ep host =
      flush_stream-Stays random false false now_ms ep host
  handle_header-Stays random (some header) reader now_ms ep host =
      Ensures-any _ (remaining_bytes reader) _ (λ (segment_bytes : List ℕ).
        Ensures-bind (λ (r : Endpoint F × Inbox). Quiet up ep host r.0 r.1.host) _
          (handle_segment header segment_bytes ep host) _
          (handle_segment-Stays header segment_bytes ep host)
          (λ (r : Endpoint F × Inbox) q.
            then_flush random r.1.send_ack r.1.ack_rel now_ms ep r.0 host r.1.host q))

  handle_stream_data-Stays :
      (random : ℕ → Bool) (read_data : Bool) (reader : PayloadReader) (now_ms : ℕ) (ep : Endpoint F)
      (host : Host)
      → Stays up ep host (handle_stream_data random read_data reader now_ms ep host)
  unfolding handle_stream_data
  handle_stream_data-Stays random false reader now_ms ep host =
      flush_stream-Stays random false false now_ms ep host
  handle_stream_data-Stays random true reader now_ms ep host =
      Ensures-any _ (payload_read (block_serial stream_segment_header_block) reader) _
        (λ (read : Option StreamSegmentHeader × PayloadReader).
          handle_header-Stays random read.0 read.1 now_ms ep host)

  module _ ⦃f : Float F⦄ (random : ℕ → Bool) where
    handle_stream_ack-Stays :
        (read : Option StreamAck) (read_data : Bool) (reader : PayloadReader) (now_ms : ℕ)
        (ep : Endpoint F) (host : Host)
        → Stays up ep host (handle_stream_ack random read read_data reader now_ms ep host)
    unfolding handle_stream_ack
    handle_stream_ack-Stays none read_data reader now_ms ep host =
        Ensures-done _ (ep, host) (Quiet-silent up ep ep host host refl (λ k. k) refl)
    handle_stream_ack-Stays (some ack) read_data reader now_ms ep host =
        Ensures-bind (λ (r : Endpoint F × Host). Quiet up ep host r.0 r.1) _
          (handle_ack ack now_ms ep host) _ (handle_ack-Stays ack now_ms ep host)
          (λ (r : Endpoint F × Host) q. record {
            at = λ last e.
                Quiet-trans q
                  ((handle_stream_data-Stays random read_data reader now_ms r.0 r.1).at last e);
          })

    handle_parts-Stays :
        (read_ack read_data : Bool) (reader : PayloadReader) (now_ms : ℕ) (ep : Endpoint F)
        (host : Host)
        → Stays up ep host (handle_parts random read_ack read_data reader now_ms ep host)
    unfolding handle_parts
    handle_parts-Stays false read_data reader now_ms ep host =
        handle_stream_data-Stays random read_data reader now_ms ep host
    handle_parts-Stays true read_data reader now_ms ep host =
        Ensures-any _ (payload_read (block_serial stream_ack_block) reader) _
          (λ (read : Option StreamAck × PayloadReader).
            handle_stream_ack-Stays read.0 read_data read.1 now_ms ep host)

    pub handle_stream_frame-Stays :
        (frame_type : FrameType) (payload_bytes : List ℕ) (now_ms : ℕ) (ep : Endpoint F)
        (host : Host)
        → Stays up ep host (handle_stream_frame random frame_type payload_bytes now_ms ep host)
    unfolding handle_stream_frame
    handle_stream_frame-Stays frame_type payload_bytes now_ms ep host =
        Ensures-any _ (stream_parts frame_type) _ (λ (parts : Bool × Bool).
          handle_parts-Stays parts.0 parts.1 (payload_reader payload_bytes) now_ms ep host)

  handle_sync-Stays :
      (random : ℕ → Bool) (read : Option StreamSync) (now_ms : ℕ) (ep : Endpoint F) (host : Host)
      → Stays up ep host (handle_sync random read now_ms ep host)
  unfolding handle_sync
  handle_sync-Stays random none now_ms ep host =
      Ensures-done _ (ep, host) (Quiet-silent up ep ep host host refl (λ k. k) refl)
  handle_sync-Stays random (some sync) now_ms ep host =
      let synced_rx = SegmentRx.sync ep.segment_rx sync.next_segment_id in
      Ensures-bind (λ (after : Inbox). Delivered (inbox ep host) after) _
        (receive_segments synced_rx.1 (inbox ep host)) _
        (receive_segments-Ensures synced_rx.1 (inbox ep host))
        (λ (box : Inbox) d.
          let synced : Endpoint F = record ep {
            segment_rx = synced_rx.0;
            unreliable_rx = Unreliable.reset box.unreliable_rx;
            reliable_rx = box.reliable_rx;
          } in
          then_flush random true true now_ms ep synced host box.host
            (take_inbox-Quiet ep synced host box d refl refl))

  pub handle_stream_sync_frame-Stays :
      (random : ℕ → Bool) (payload_bytes : List ℕ) (now_ms : ℕ) (ep : Endpoint F) (host : Host)
      → Stays up ep host (handle_stream_sync_frame random payload_bytes now_ms ep host)
  unfolding handle_stream_sync_frame
  handle_stream_sync_frame-Stays random payload_bytes now_ms ep host =
      Ensures-any _ (payload_read (block_serial stream_sync_block) (payload_reader payload_bytes)) _
        (λ (read : Option StreamSync × PayloadReader).
          handle_sync-Stays random read.0 now_ms ep host)
