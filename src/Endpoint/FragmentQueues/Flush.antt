-- ===== src/Endpoint/FragmentQueues/Flush.antt =====
-- About `FragmentTxBuffers::flush` of endpoint/mod.rs: which datagrams one frame carries.
use redpine_rs.Common.{
  ℕ, ◌+◌, ◌-◌, ◌<◌, ◌≡◌, none, some, List, [], ◌∷◌, ◌++◌, arith, Run, done, length, drop, All,
}
use redpine_rs.Frame.{Datagram}
use redpine_rs.Frame.DatagramSerial.Laws.{DatagramFits, encode_datagram}
use redpine_rs.Frame.Envelope.Writing.{holding}
use redpine_rs.Buffer.{FragmentRc, range_bytes}
use redpine_rs.Frame.Envelope.{FrameWriter}
use redpine_rs.Frame.Io.{be_bytes_u32, be_bytes_u16}
use redpine_rs.Buffer.Reliable
use redpine_rs.Buffer.Unreliable
use redpine_rs.Endpoint.FragmentQueues.{FragmentQueues, expire, datagram_of}
use redpine_rs.Endpoint.FragmentQueues.Ready.{IsReady, head, choice, sent_on}

-- The datagrams that go out in `room` bytes, and the queues after them. Before each one, fragments
-- that have expired are dropped; the channel that is chosen sends its next fragment. It ends where
-- no channel has a fragment, or where the next datagram is too large for what is left.
pub data Sends (now_ms : ℕ) : ℕ → FragmentQueues → List Datagram → FragmentQueues → Type 0 where
  idle :
      {room : ℕ} {q : FragmentQueues}
      → choice (expire q now_ms) ≡ none
      → Sends now_ms room q [] (expire q now_ms)
  full :
      {room : ℕ} {q : FragmentQueues} (channel_idx id : ℕ) (fragment : FragmentRc)
      → choice (expire q now_ms) ≡ some channel_idx
      → head (expire q now_ms) channel_idx ≡ some (id, fragment)
      → room < 7 + length (range_bytes fragment)
      → Sends now_ms room q [] (expire q now_ms)
  sends :
      {room left : ℕ} {q q' : FragmentQueues} {rest : List Datagram} (channel_idx id : ℕ)
      (fragment : FragmentRc)
      → choice (expire q now_ms) ≡ some channel_idx
      → head (expire q now_ms) channel_idx ≡ some (id, fragment)
      → 7 + length (range_bytes fragment) + left ≡ room
      → Sends now_ms left
          (sent_on (expire q now_ms) channel_idx (length (range_bytes fragment)))
          rest
          q'
      → Sends now_ms room q (datagram_of channel_idx id fragment ∷ rest) q'

abbrev pub encode_all : List Datagram → List ℕ
encode_all [] = []
encode_all (dg ∷ rest) = encode_datagram dg ++ encode_all rest

-- The bytes of data in the datagrams, their headers not counted.
abbrev pub data_size : List Datagram → ℕ
data_size [] = 0
data_size (dg ∷ rest) = length dg.bytes + data_size rest

-- What a flush that writes behind `content` in a buffer with `tail` after it comes to.
pub record Flushed (now_ms total : ℕ) (q : FragmentQueues) (content tail : List ℕ)
    (result : Run (FragmentQueues × FrameWriter × ℕ)) : Type 0 where
  pub datagrams : List Datagram
  pub after : FragmentQueues
  pub result_lem :
      result
      ≡ done (
        after,
        holding (content ++ encode_all datagrams) (drop (length (encode_all datagrams)) tail),
        total + data_size datagrams,
      )
  pub sends_lem : Sends now_ms (length tail - 4) q datagrams after
  pub fits : All DatagramFits datagrams
  pub ready : IsReady after

pub length-encode_datagram : (dg : Datagram) → length (encode_datagram dg) ≡ 7 + length dg.bytes
unfolding encode_datagram be_bytes_u32 be_bytes_u16
length-encode_datagram dg = omega arith
