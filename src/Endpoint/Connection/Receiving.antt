-- ===== src/Endpoint/Connection/Receiving.antt =====
-- What endpoint/mod.rs does with the segments that its receiver delivers: the datagrams of a segment
-- go to the receive buffers, and whole packets to the program.
use redpine_rs.Common.{
  ℕ, zero, suc, ◌+◌, Bool, true, Option, none, some, List, [], ◌∷◌, if◌then◌else◌, Run, done,
  unfinished, ◌>>=◌, length,
}
use redpine_rs.Frame.{Datagram}
use redpine_rs.Frame.DatagramSerial.{datagram_serial}
use redpine_rs.Frame.Envelope.{PayloadReader, payload_reader, payload_read}
use redpine_rs.Buffer.{FragmentRef}
use redpine_rs.Buffer.Reliable
use redpine_rs.Buffer.Unreliable
use redpine_rs.Endpoint.Host.{on_receive, Host, call}

-- The variables that the callback changes.
pub record Inbox : Type 0 where
  pub unreliable_rx : Unreliable.RxBuffer
  pub reliable_rx : Reliable.RxBuffer
  pub host : Host
  pub send_ack : Bool
  pub ack_rel : Bool

abbrev pub deliver : Option (List ℕ) → Host → Host
deliver none host = host
deliver (some packet) host = call (on_receive packet) host

-- the body of the `while` of the callback
unfoldable pub receive_datagram : Datagram → Inbox → Inbox
receive_datagram datagram inbox =
    let fragment : FragmentRef = record {
      first = datagram.first;
      last = datagram.last;
      bytes = datagram.bytes;
    } in
    let (unreliable_rx, unrel_packet) =
      Unreliable.receive inbox.unreliable_rx datagram.id fragment in
    let (reliable_rx, rel_packet) = Reliable.receive inbox.reliable_rx datagram.id fragment in
    if datagram.unrel
    then record inbox {
      unreliable_rx = unreliable_rx;
      host = deliver unrel_packet inbox.host;
      send_ack = true;
    }
    else record inbox {
      reliable_rx = reliable_rx;
      host = deliver rel_packet inbox.host;
      send_ack = true;
      ack_rel = true;
    }

-- `while let Some(datagram) = frame_reader.read()`. A datagram takes seven bytes or more.
unfoldable pub receive_datagrams : ℕ → PayloadReader → Inbox → Run Inbox
unfolding receive_datagram
receive_datagrams zero reader inbox = unfinished
receive_datagrams (suc rounds) reader inbox = do
  (read, reader') ← payload_read datagram_serial reader
  elim read [
    | none ↦ done inbox
    | some datagram ↦ receive_datagrams rounds reader' (receive_datagram datagram inbox)
  ]

-- the callback, once for each segment delivered
unfoldable pub receive_segments : List (List ℕ) → Inbox → Run Inbox
unfolding receive_datagrams payload_reader
receive_segments [] inbox = done inbox
receive_segments (segment_bytes ∷ rest) inbox = do
  inbox' ← receive_datagrams (length segment_bytes + 1) (payload_reader segment_bytes) inbox
  receive_segments rest inbox'
