-- ===== src/Endpoint/FragmentQueues/Transfer.antt =====
-- From the sender's queues to the receiver's buffers: the datagrams that `FragmentTxBuffers::flush`
-- writes, and those that the callback of `SegmentRx::receive` (endpoint/mod.rs) reads.
use redpine_rs.Common.{List, [], ◌∷◌}
use redpine_rs.Frame.{Datagram}
use redpine_rs.Endpoint.FragmentQueues.{FragmentQueues}
use redpine_rs.Endpoint.Connection.Receiving.{Inbox, receive_datagram}

-- The datagrams, one after the other.
abbrev pub receive_all : List Datagram → Inbox → Inbox
receive_all [] inbox = inbox
receive_all (dg ∷ rest) inbox = receive_all rest (receive_datagram dg inbox)
