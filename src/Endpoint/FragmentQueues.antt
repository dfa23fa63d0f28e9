-- ===== src/Endpoint/FragmentQueues.antt =====
-- `FragmentTxBuffers` of endpoint/mod.rs: the two send queues and the choice between them.
pub mod Ready
pub mod Flush
pub mod Transfer
pub mod Lifetime
use redpine_rs.Common.{
  ℕ, zero, suc, ◌+◌, ◌-◌, ◌*◌, ◌/◌, ◌%◌, ◌^◌, ◌≤◌, ◌<◌, min, max, ◌≡◌, refl, sym, ap, ◌∙◌, subst,
  ◌≢◌, ◌⊎◌, inl, inr, Bool, true, false, ◌&&◌, ◌||◌, not, Option, none, some, List, [], ◌∷◌, ◌++◌,
  map, append_assoc, arith, ltb, leb, ◌==◌, if◌then◌else◌, ltb→lt, lt→ltb, le→ltb_false,
  ltb_false→le, le→leb, ==→eq, ==-self, Bool-cases, Option-cases, Run, done, panic, unfinished,
  assert, ◌>>=◌, ◌>>◌, length, get_elem?, take, drop, All, length-drop, bit_and, bit_or, bit_xor,
}
use redpine_rs.Frame.{Datagram}
use redpine_rs.Frame.DatagramSerial.{datagram_serial}
use redpine_rs.Frame.Envelope.{FrameWriter, frame_write}
use redpine_rs.Buffer.{FragmentRc, range_bytes}
use redpine_rs.Buffer.Unreliable.{pop_expired}
use redpine_rs.Buffer.Reliable.{resend_all}
use redpine_rs.Buffer.Reliable
use redpine_rs.Buffer.Unreliable
use redpine_rs.Endpoint.Prio.{Prio, Config, prio, next, mark_sent}

pub data SendMode : Type 0 where
  reliable : SendMode
  unreliable : ℕ → SendMode

-- `FragmentTxBuffers`
pub record FragmentQueues : Type 0 where
  pub unrel : Unreliable.TxBuffer
  pub rel : Reliable.TxBuffer
  pub prio : Prio

-- `FragmentTxBuffers::new`
unfoldable pub fragment_queues : ℕ → ℕ → ℕ → Config → Run FragmentQueues
unfolding prio
fragment_queues window_base_id window_size fragment_size prio_config = do
  unrel ← Unreliable.tx_buffer window_base_id fragment_size
  rel ← Reliable.tx_buffer window_base_id fragment_size window_size
  done (record { unrel = unrel; rel = rel; prio = prio prio_config })

unfoldable pub enqueue : FragmentQueues → List ℕ → SendMode → ℕ → FragmentQueues
enqueue q packet_bytes reliable now_ms = record q { rel = Reliable.push q.rel packet_bytes }
enqueue q packet_bytes (unreliable timeout_ms) now_ms = record q {
  unrel = Unreliable.push q.unrel packet_bytes ((now_ms + timeout_ms + 1) % 2 ^ 64);
}

-- the answer of `rel.acknowledge` is not used
unfoldable pub acknowledge : FragmentQueues → Option ℕ → Run FragmentQueues
acknowledge q none = done q
acknowledge q (some id) = do
  (rel, accepted) ← Reliable.acknowledge q.rel id
  done (record q { rel = rel })

unfoldable pub handle_timeout : FragmentQueues → FragmentQueues
handle_timeout q = record q { rel = resend_all q.rel }

abbrev pub is_some : {A : Type 0} → Option A → Bool
is_some none = false
is_some (some a) = true

-- `unwrap` and `expect`
abbrev pub unwrap : {A : Type 0} → Option A → Run A
unwrap none = panic
unwrap (some a) = done a

abbrev pub expire : FragmentQueues → ℕ → FragmentQueues
expire q now_ms = record q { unrel = pop_expired q.unrel now_ms }

unfoldable pub data_ready : FragmentQueues → ℕ → FragmentQueues × Bool
data_ready q now_ms =
    let q' = expire q now_ms in
    (q', is_some (Unreliable.peek_sendable q'.unrel) || is_some (Reliable.peek_sendable q'.rel))

-- `match channel_idx` on what the channels have ready
unfoldable pub peek_channel : FragmentQueues → ℕ → Run (Option (ℕ × FragmentRc))
peek_channel q zero = done (Unreliable.peek_sendable q.unrel)
peek_channel q (suc zero) = done (Reliable.peek_sendable q.rel)
peek_channel q (suc (suc channel_idx)) = panic

-- `match channel_idx` on `pop_sendable().expect(..)`
unfoldable pub pop_channel : FragmentQueues → ℕ → Run FragmentQueues
pop_channel q zero = do
  popped ← unwrap (Unreliable.pop_sendable q.unrel).1
  done (record q { unrel = (Unreliable.pop_sendable q.unrel).0 })
pop_channel q (suc zero) = do
  popped ← unwrap (Reliable.pop_sendable q.rel).1
  done (record q { rel = (Reliable.pop_sendable q.rel).0 })
pop_channel q (suc (suc channel_idx)) = panic

unfoldable pub datagram_of : ℕ → ℕ → FragmentRc → Datagram
datagram_of channel_idx id fragment = record {
  id = id;
  unrel = channel_idx == 0;
  first = fragment.first;
  last = fragment.last;
  bytes = range_bytes fragment;
}

-- the state after a datagram was written
unfoldable pub mark_written : FragmentQueues → ℕ → ℕ → Run FragmentQueues
unfolding pop_channel
mark_written q channel_idx data_size = do
  prio' ← mark_sent q.prio channel_idx data_size
  pop_channel (record q { prio = prio' }) channel_idx

-- the `loop` of `flush`. Every round but the last takes seven bytes or more of the buffer.
unfoldable pub flush_loop :
    ℕ → FragmentQueues → FrameWriter → ℕ → ℕ → Run (FragmentQueues × FrameWriter × ℕ)
unfolding peek_channel datagram_of mark_written
flush_loop zero q fw total now_ms = unfinished
flush_loop (suc rounds) q fw total now_ms =
    let q' = expire q now_ms in
    let unrel_ready = is_some (Unreliable.peek_sendable q'.unrel) in
    let rel_ready = is_some (Reliable.peek_sendable q'.rel) in
    elim (next q'.prio unrel_ready rel_ready false false) [
      | none ↦ done (q', fw, total)
      | some channel_idx ↦ do
        ready ← peek_channel q' channel_idx
        (id, fragment) ← unwrap ready
        let datagram = datagram_of channel_idx id fragment
        (written, fw') ← frame_write datagram_serial datagram fw
        let size = length datagram.bytes
        (if written
            then (do
              q'' ← mark_written q' channel_idx size
              flush_loop rounds q'' fw' (total + size) now_ms)
            else done (q', fw', total))
    ]

unfoldable pub flush : FragmentQueues → FrameWriter → ℕ → Run (FragmentQueues × FrameWriter × ℕ)
unfolding flush_loop
flush q fw now_ms = flush_loop (length fw.buffer) q fw 0 now_ms
