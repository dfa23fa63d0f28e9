-- ===== src/Lib.antt =====
-- redpine is a protocol for games over UDP: a client and a server shake hands, and then two
-- endpoints exchange segments that carry fragments of packets, some of them reliably. This library
-- models the endpoint and the parts below it, each as functions on explicit states, and proves what
-- makes them correct.
--
-- The parts and their files (paths in the repository, then modules here):
-- src/frame/mod.rs: Frame, the data of the ten frames.
-- src/frame/serial/mod.rs: Frame.Io (Reader and Writer), Frame.Block (the nine fixed bodies and the
--   Serial methods they get), Frame.DatagramSerial (Datagram), Frame.Envelope (FrameWriter,
--   PayloadReader, the checks on received bytes, SimpleFrame). Frame.Codec is what the envelope asks
--   of a body, and Frame.Block.Lawful gives it for the fixed ones.
-- src/frame/serial/crc.rs: Frame.Crc.
-- src/buffer/mod.rs: Buffer. The loop that cuts packets, which both queues have, is Buffer.split.
-- src/buffer/reliable.rs and src/buffer/unreliable.rs: Buffer.Reliable and Buffer.Unreliable, each
--   with its TxBuffer and RxBuffer; `new` is tx_buffer or rx_buffer, the methods keep their names.
-- src/endpoint/cc.rs: Endpoint.AimdReno. src/endpoint/prio.rs: Endpoint.Prio.
-- src/endpoint/segment_rx.rs and segment_tx.rs: Endpoint.SegmentRx and Endpoint.SegmentTx.
-- src/endpoint/mod.rs: Endpoint.Host (HostContext, whose calls are kept in order), Endpoint.Float (the
--   f32 arithmetic), Endpoint.FragmentQueues (FragmentTxBuffers) and Endpoint.Connection (Endpoint;
--   its children Receiving, Sending, Handling and Timeout have the datagrams that come in, the frames
--   that go out, handle_frame and the closing of a connection, and handle_rto_timer; the methods keep
--   their names, and the arms of a long match are functions of their own).
-- src/lib.rs: Interface (ErrorKind; SendMode is in Endpoint.FragmentQueues).
-- src/client.rs: Client (the state, HostContext and connect_with_config), Client.Handling (the frames, the
--   timeouts and the calls of the program, with each `match` on the state as a function by clauses) and
--   Client.Polling (poll_event, wait_event and wait_event_timeout).
-- src/server/mod.rs: Server (the state and bind_with_config), Server.Handshake (the answer to a client's
--   first frame, and the test of the second one), Server.Table (the hash map), Server.Frames,
--   Server.Timers and Server.Polling. The hash of src/server/handshake_mac.rs is a parameter.
-- src/server/peer.rs: Server.Peers, and the Timer in Server.Timers. A peer is shared by the table, the
--   timers, the events and the program's handles; all of them have its place in the server's heap, from
--   which no peer is removed. A timer finds its peer while one of the others has it.
-- src/client.rs with src/server: Session has a client and a server together.
-- src/timer_queue.rs: TimerQueue.
-- Common has the shared helpers, and Examples the theorems at concrete inputs.
--
-- How they interact: the server answers a client's first frame and keeps nothing of it. The answer
-- carries a MAC, which the client sends back in its second frame, where the server tests it. From then
-- on an endpoint on each side pushes packets into the send queues of Buffer, asks Endpoint.Prio which
-- channel is next, and writes fragments as datagrams into a segment frame by Frame.Envelope. The other
-- side checks and reads the frame, passes the segment through Endpoint.SegmentRx, and gives each
-- datagram to a receive buffer. Acks come back to Endpoint.SegmentTx, which tells Endpoint.AimdReno of
-- acks and drops.
--
-- Conventions: a method on `&mut self` returns the new state. Numbers are unbounded naturals, and the
-- wrap of a machine integer is written out (usize has 64 bits); where a release build wraps, the
-- model wraps. What may fail is a Run: it returns, panics (asserts, debug asserts, indices and slices
-- out of range, divisions by zero), or leaves its buffer through a raw pointer, which is undefined.
-- A callback is the list of what it is called with. A random bit is an argument; an endpoint has the
-- sequence of all bits that it may draw. The arithmetic of f32 is a parameter without any hypothesis. An Arc of bytes is
-- the bytes, since nothing changes them. The loop of `push` runs on fuel, one more round than the
-- packet has bytes, and a round takes at least one byte; the loop at the end of the segment
-- receiver's `receive` runs on two rounds, one for each slot, and a round empties one. Both are part
-- of the theorems on them. A loop of the endpoint that is out of rounds is `unfinished`. The flush of
-- the fragment queues has as many rounds as the buffer has bytes, of which a datagram takes seven or
-- more; a segment is read in one round more than it has bytes; flush_stream has two rounds more than
-- the segment window has places, since every round but the first and the last takes a place.
--
-- A call of a client or a server that waits for an event has the rounds of its loop as an argument: the
-- frames that come in, the time, and what each round takes; it is `unfinished` after the last. The times
-- that the program reads are in these rounds or arguments of the methods.
--
-- Not modelled: src/socket.rs and src/bin, which are input and output, and the hash of
-- src/server/handshake_mac.rs, of a third-party package. The theorems on the segment sender are about the
-- bytes in transit; those on any operations of a whole endpoint or client hold where the operations
-- return.
pub mod Common
pub mod Interface
pub mod Frame
pub mod Buffer
pub mod Endpoint
pub mod Client
pub mod Server
pub mod Session
pub mod TimerQueue
pub mod Examples
