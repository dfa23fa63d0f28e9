-- ===== src/Endpoint/Connection/Quiet.antt =====
-- What the smaller steps of endpoint/mod.rs leave alone, the state of the connection and the bounds of
-- the timeout, and which calls they make.
use redpine_rs.Common.{
  append-All, ℕ, zero, suc, ◌+◌, ◌≤◌, ◌≡◌, refl, sym, ◌∙◌, ◌≢◌, inl, inr, Bool, true, false, ◌||◌,
  Option, none, some, List, [], ◌∷◌, ◌++◌, append_assoc, arith, ltb, Bool-cases, Run, assert, All,
  append-nil,
}
use redpine_rs.Common.Ensures.{Ensures, Ensures-done, Ensures-unfinished, Ensures-bind, Ensures-any}
use redpine_rs.Frame.Block.{block_serial, stream_segment_header_block}
use redpine_rs.Frame.Envelope.{frame_write, frame_writer, finalize}
use redpine_rs.Endpoint.FragmentQueues.{FragmentQueues, flush}
use redpine_rs.Endpoint.SegmentTx.{SegmentTx, compute_next_nonce, mark_sent}
use redpine_rs.Frame.{FrameType}
use redpine_rs.Endpoint.Host.{
  call, Call, send_frame, set_rto_timer, unset_rto_timer, on_connect, on_disconnect, on_timeout,
  on_receive, Host,
}
use redpine_rs.Frame.Envelope.{SimpleFrame, FrameWriter}
use redpine_rs.Endpoint.FragmentQueues.{data_ready}
use redpine_rs.Endpoint.Connection.{
  FragmentQueues, SegmentTx, later, Endpoint, RtoTimerState, RttTimerState, clamp_rto,
  arm_rto_timer, rto_min_ms, rto_max_ms,
}
use redpine_rs.Endpoint.Connection.Sending.{
  stream_frame_type, write_ack, sends_data, send_simple, start_rto_timer, start_rtt_timer,
  write_data, send_stream_frame, flush_stream_loop, flush_stream,
}

-- How far a connection is, as the program sees it.
pub data Phase : Type 0 where
  fresh up over : Phase

-- The calls that the program may get: `on_connect` first, packets until the connection is over, and
-- one notice that it is over.
abbrev pub next_phase : Phase → Call → Option Phase
next_phase fresh on_connect = some up
next_phase fresh _ = none
next_phase up (send_frame frame) = some up
next_phase up (set_rto_timer time_ms) = some up
next_phase up unset_rto_timer = some up
next_phase up (on_receive packet) = some up
next_phase up on_disconnect = some over
next_phase up on_timeout = some over
next_phase up on_connect = none
next_phase over (send_frame frame) = some over
next_phase over (set_rto_timer time_ms) = some over
next_phase over _ = none

abbrev pub IsRto : ℕ → Type 0
IsRto ms = (rto_min_ms ≤ ms) × (ms ≤ rto_max_ms)

pub clamp_rto-IsRto : (ms : ℕ) → IsRto (clamp_rto ms)
clamp_rto-IsRto ms = (omega arith, omega arith)

abbrev pub Keeps : Phase → Call → Type 0
Keeps p c = next_phase p c ≡ some p

module _ {F : Type 0} where
  -- From one endpoint to the other the phase is `p` all along.
  pub record Quiet (p : Phase) (ep : Endpoint F) (host : Host) (ep' : Endpoint F) (host' : Host)
      : Type 0 where
    pub state_same : ep'.state_id ≡ ep.state_id
    pub rto_kept : IsRto ep.rto_ms → IsRto ep'.rto_ms
    pub more : List Call
    pub calls_lem : host'.calls ≡ host.calls ++ more
    pub keeps : All (Keeps p) more

  -- The same of a step's result.
  abbrev pub Stays : Phase → Endpoint F → Host → Run (Endpoint F × Host) → Type 0
  Stays p ep host m = Ensures (λ (r : Endpoint F × Host). Quiet p ep host r.0 r.1) m

  -- A step that makes no call.
  pub Quiet-silent :
      (p : Phase) (ep ep' : Endpoint F) (host host' : Host)
      → ep'.state_id ≡ ep.state_id
      → (IsRto ep.rto_ms → IsRto ep'.rto_ms)
      → host'.calls ≡ host.calls
      → Quiet p ep host ep' host'
  Quiet-silent p ep ep' host host' same kept e = record {
    state_same = same;
    rto_kept = kept;
    more = [];
    calls_lem = e ∙ sym (append-nil host.calls);
    keeps = tt;
  }

  pub Quiet-call :
      (p : Phase) (ep ep' : Endpoint F) (host host' : Host) (c : Call)
      → ep'.state_id ≡ ep.state_id
      → (IsRto ep.rto_ms → IsRto ep'.rto_ms)
      → host'.calls ≡ host.calls ++ c ∷ []
      → Keeps p c
      → Quiet p ep host ep' host'
  Quiet-call p ep ep' host host' c same kept e k = record {
    state_same = same;
    rto_kept = kept;
    more = c ∷ [];
    calls_lem = e;
    keeps = (k, tt);
  }

  pub Quiet-trans :
      {p : Phase} {ep ep' ep'' : Endpoint F} {host host' host'' : Host}
      → Quiet p ep host ep' host'
      → Quiet p ep' host' ep'' host''
      → Quiet p ep host ep'' host''
  Quiet-trans {p} {ep} {ep'} {ep''} {host} first second = record {
    state_same = second.state_same ∙ first.state_same;
    rto_kept = λ h. second.rto_kept (first.rto_kept h);
    more = first.more ++ second.more;
    calls_lem =
        second.calls_lem
        ∙ rw (first.calls_lem, append_assoc host.calls first.more second.more) refl;
    keeps = append-All (Keeps p) first.more second.more first.keeps second.keeps;
  }

  pub send_simple-Stays :
      {A : Type 0} (p : Phase) (kind : SimpleFrame A) (obj : A) (ep : Endpoint F) (host : Host)
      → p ≢ fresh
      → Stays p ep host (send_simple kind obj ep host)
  unfolding send_simple
  send_simple-Stays fresh kind obj ep host h = absurd (h refl)
  send_simple-Stays up kind obj ep host h = Ensures-any _ _ _ (λ frame.
      Ensures-done _ _ (Quiet-call up ep _ host _ (send_frame frame) refl (λ k. k) refl refl))
  send_simple-Stays over kind obj ep host h = Ensures-any _ _ _ (λ frame.
      Ensures-done _ _ (Quiet-call over ep _ host _ (send_frame frame) refl (λ k. k) refl refl))

  pub arm_rto_timer-Quiet :
      (now_ms : ℕ) (ep : Endpoint F) (host : Host)
      → Quiet up ep host (arm_rto_timer now_ms ep host).0 (arm_rto_timer now_ms ep host).1
  arm_rto_timer-Quiet now_ms ep host =
      Quiet-call up ep _ host _ (set_rto_timer (later now_ms ep.rto_ms)) refl (λ k. k) refl refl

  start_rto_timer-Quiet :
      (timer : Option RtoTimerState) (now_ms : ℕ) (ep : Endpoint F) (host : Host)
      → let (ep', host') = start_rto_timer timer now_ms ep host in Quiet up ep host ep' host'
  start_rto_timer-Quiet none now_ms ep host = arm_rto_timer-Quiet now_ms ep host
  start_rto_timer-Quiet (some timer) now_ms ep host =
      Quiet-silent up ep ep host host refl (λ k. k) refl

  start_rtt_timer-Quiet :
      (timer : Option RttTimerState) (segment_id now_ms : ℕ) (ep : Endpoint F) (host : Host)
      → Quiet up ep host (start_rtt_timer timer segment_id now_ms ep) host
  start_rtt_timer-Quiet none segment_id now_ms ep host =
      Quiet-silent up ep _ host host refl (λ k. k) refl
  start_rtt_timer-Quiet (some timer) segment_id now_ms ep host =
      Quiet-silent up ep ep host host refl (λ k. k) refl

  module _ (random : ℕ → Bool) where
    write_data-Stays :
        (send_data : Bool) (now_ms : ℕ) (ep : Endpoint F) (host : Host) (fw : FrameWriter)
        → Ensures
            (λ (r : Endpoint F × Host × FrameWriter). Quiet up ep host r.0 r.1)
            (write_data random send_data now_ms ep host fw)
    unfolding write_data
    write_data-Stays false now_ms ep host fw =
        Ensures-done _ _ (Quiet-silent up ep ep host host refl (λ k. k) refl)
    write_data-Stays true now_ms ep host fw =
        Ensures-any _ (compute_next_nonce (random host.draws) ep.segment_tx) _
          (λ (drawn : SegmentTx × Bool).
            Ensures-any _
              (frame_write (block_serial stream_segment_header_block)
                (record { id = ep.segment_tx.next_id; nonce = drawn.1 }) fw)
              _
              (λ (written : Bool × FrameWriter).
                Ensures-any _ (flush ep.fragment_tx written.1 now_ms) _
                  (λ (flushed : FragmentQueues × FrameWriter × ℕ).
                    Ensures-any _ (assert (ltb 0 flushed.2)) _ (λ (checked : Unit {0}).
                      Ensures-any _ (mark_sent drawn.0 flushed.2) _ (λ (tx : SegmentTx).
                        let sent : Endpoint F = record ep {
                          segment_tx = tx;
                          fragment_tx = flushed.0;
                        } in
                        let drew : Host = record host { draws = host.draws + 1 } in
                        let started = start_rto_timer sent.rto_timer_state now_ms sent drew in
                        Ensures-done _
                          (
                            start_rtt_timer started.0.rtt_timer_state ep.segment_tx.next_id now_ms
                                started.0,
                            started.1,
                            flushed.1,
                          )
                          (Quiet-trans (Quiet-silent up ep sent host drew refl (λ k. k) refl) (
                            Quiet-trans
                              (start_rto_timer-Quiet sent.rto_timer_state now_ms sent drew)
                              (start_rtt_timer-Quiet started.0.rtt_timer_state ep.segment_tx.next_id
                                now_ms started.0 started.1))))))))

    send_stream_frame-Stays :
        (send_ack send_data ack_rel : Bool) (now_ms : ℕ) (ep : Endpoint F) (host : Host)
        → Stays up ep host (send_stream_frame random send_ack send_data ack_rel now_ms ep host)
    unfolding send_stream_frame
    send_stream_frame-Stays send_ack send_data ack_rel now_ms ep host =
        Ensures-any _ (stream_frame_type send_ack send_data) _ (λ (frame_type : FrameType).
          Ensures-any _ (frame_writer ep.tx_buffer frame_type) _ (λ (fw : FrameWriter).
            Ensures-any _ (write_ack send_ack ack_rel ep fw) _ (λ (fw1 : FrameWriter).
              Ensures-bind (λ (r : Endpoint F × Host × FrameWriter). Quiet up ep host r.0 r.1) _
                (write_data random send_data now_ms ep host fw1) _
                (write_data-Stays send_data now_ms ep host fw1)
                (λ (r : Endpoint F × Host × FrameWriter) q.
                  Ensures-any _ (finalize r.2) _ (λ (sent : List ℕ × List ℕ).
                    let ep' : Endpoint F = record (r.0) { tx_buffer = sent.1 } in
                    Ensures-done _ (ep', call (send_frame sent.0) r.1)
                      (Quiet-trans q (
                        Quiet-call up r.0 ep' r.1 (call (send_frame sent.0) r.1) (send_frame sent.0)
                          refl (λ k. k) refl refl)))))))

    flush_stream_loop-Stays :
        (rounds : ℕ) (send_ack ack_rel : Bool) (now_ms : ℕ) (ep : Endpoint F) (host : Host)
        → Stays up ep host (flush_stream_loop random rounds send_ack ack_rel now_ms ep host)
    unfolding flush_stream_loop
    flush_stream_loop-Stays zero send_ack ack_rel now_ms ep host = Ensures-unfinished _
    flush_stream_loop-Stays (suc rounds) send_ack ack_rel now_ms ep host =
        let (queues, ready) = data_ready ep.fragment_tx now_ms in
        let ep1 : Endpoint F = record ep { fragment_tx = queues } in
        let silent = Quiet-silent up ep ep1 host host refl (λ k. k) refl in
        let send_data = sends_data random ep1 ready in
        elim (Bool-cases (send_ack || send_data)) [
          | inr stop ↦ rw stop (Ensures-done _ _ silent)
          | inl more ↦ rw more (
              Ensures-bind (λ (r : Endpoint F × Host). Quiet up ep1 host r.0 r.1) _ _ _
                (send_stream_frame-Stays send_ack send_data ack_rel now_ms ep1 host)
                (λ (r : Endpoint F × Host) q. record {
                  at = λ last e. Quiet-trans silent (
                      Quiet-trans q
                        ((flush_stream_loop-Stays rounds false ack_rel now_ms r.0 r.1).at last e));
                }))
        ]

    pub flush_stream-Stays :
        (send_ack ack_rel : Bool) (now_ms : ℕ) (ep : Endpoint F) (host : Host)
        → Stays up ep host (flush_stream random send_ack ack_rel now_ms ep host)
    unfolding flush_stream
    flush_stream-Stays send_ack ack_rel now_ms ep host =
        flush_stream_loop-Stays (ep.segment_tx.size + 2) send_ack ack_rel now_ms ep host
