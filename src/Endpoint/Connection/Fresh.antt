-- ===== src/Endpoint/Connection/Fresh.antt =====
-- A new endpoint: it can be made, and has nothing to send.
use redpine_rs.Endpoint.Connection.Handling.{flush}
use redpine_rs.Endpoint.Host.{call, on_connect}
use redpine_rs.Endpoint.Connection.{active, Host, init}
use redpine_rs.Endpoint.Connection.Sending.{flush_stream, flush_stream_loop, sends_data}
use redpine_rs.Endpoint.FragmentQueues.{data_ready}
use redpine_rs.Buffer.Unreliable.{pop_expired, drop_expired}
use redpine_rs.Common.{Bool, ℕ, ◌≡◌, refl, done}
use redpine_rs.Endpoint.FragmentQueues.{fragment_queues}
use redpine_rs.Endpoint.SegmentTx.{segment_tx, can_send}
use redpine_rs.Endpoint.AimdReno.{aimd_reno, cwnd}
use redpine_rs.Buffer.Reliable
use redpine_rs.Buffer.Unreliable
use redpine_rs.Endpoint.Connection.{Config, Endpoint, endpoint}

-- It can be made for every configuration, and is then active at once, with nothing to flush.
pub endpoint-new :
    {F : Type 0} (config : Config)
    → (ep : Endpoint F) × (endpoint config ≡ done ep)
      × ((host : Host)
          → init ep host ≡ done (record ep { state_id = active }, call on_connect host))
      × ((random : ℕ → Bool) (now_ms : ℕ) (host : Host)
          → (ep' : Endpoint F) × (flush random now_ms (record ep { state_id = active }) host
              ≡ done (ep', host))
            × (ep'.state_id ≡ active))
unfolding endpoint fragment_queues segment_tx aimd_reno Reliable.tx_buffer Unreliable.tx_buffer
    Reliable.rx_buffer Unreliable.rx_buffer init flush flush_stream flush_stream_loop sends_data
    data_ready pop_expired drop_expired Unreliable.peek_sendable Reliable.peek_sendable can_send
    cwnd
endpoint-new config = (_, refl, λ host. refl, λ random now_ms host. (_, refl, refl))
