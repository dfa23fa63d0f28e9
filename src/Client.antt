-- ===== src/Client.antt =====
-- The state of a client (client.rs), and what an endpoint's calls do to it. The socket is the list
-- of the frames that were sent; the clock and the random numbers are arguments.
pub mod Handling
pub mod Polling
pub mod Operations
pub mod Lifecycle
pub mod Order
pub mod Starting
pub mod Ordered
pub mod Silence
pub mod Answers
use redpine_rs.Common.{
  ℕ, ◌∷◌, [], ◌++◌, ◌&&◌, Bool, true, false, none, some, Option, List, leb, Run, done, panic,
  assert, ◌>>=◌, ◌>>◌,
}
use redpine_rs.Common.Word.{u32_max}
use redpine_rs.Interface.{ErrorKind, timeout}
use redpine_rs.Frame.{ConnectionParams, HandshakeAlphaFrame}
use redpine_rs.Frame.Envelope.{write_handshake_alpha}
use redpine_rs.Endpoint.Host.{
  Call, Host, send_frame, set_rto_timer, unset_rto_timer, on_connect, on_disconnect, on_timeout,
  on_receive,
}
use redpine_rs.Endpoint.FragmentQueues.{SendMode}
use redpine_rs.Endpoint.Connection.{Endpoint, ChannelBalanceConfig, default_balance}
use redpine_rs.Endpoint.Connection

abbrev pub frame_size_max : ℕ
frame_size_max = 1472

abbrev pub handshake_timeout_default_ms : ℕ
handshake_timeout_default_ms = 10000

abbrev pub handshake_timeout_min_ms : ℕ
handshake_timeout_min_ms = 2000

abbrev pub handshake_resend_timeout_ms : ℕ
handshake_resend_timeout_ms = 2000

abbrev pub connection_timeout_default_ms : ℕ
connection_timeout_default_ms = 10000

abbrev pub connection_timeout_min_ms : ℕ
connection_timeout_min_ms = 2000

pub record Config : Type 0 where
  pub handshake_timeout_ms : ℕ
  pub connection_timeout_ms : ℕ
  pub channel_balance : ChannelBalanceConfig

abbrev pub default_config : Config
default_config = record {
  handshake_timeout_ms = handshake_timeout_default_ms;
  connection_timeout_ms = connection_timeout_default_ms;
  channel_balance = default_balance;
}

unfoldable pub validate : Config → Run (Unit {0})
validate config = do
  assert (leb handshake_timeout_min_ms config.handshake_timeout_ms)
  assert (leb connection_timeout_min_ms config.connection_timeout_ms)
  Connection.validate config.channel_balance

pub data HandshakePhase : Type 0 where
  alpha beta : HandshakePhase

pub record HandshakeState : Type 0 where
  pub phase : HandshakePhase
  pub timeout_time_ms : ℕ
  pub timeout_ms : ℕ
  pub packet_buffer : List (List ℕ × SendMode)
  pub frame : List ℕ
  pub local_nonce : ℕ

pub data State (F : Type 0) : Type 0 where
  handshake : HandshakeState → State F
  active : Endpoint F → State F
  quiescent : State F

pub data Event : Type 0 where
  connect disconnect : Event
  receive : List ℕ → Event
  error : ErrorKind → Event

-- `ClientCore`: `sent` is what went out through `socket_tx`, and `draws` counts the random bits.
pub record ClientCore (F : Type 0) : Type 0 where
  pub config : Config
  pub sent : List (List ℕ)
  pub draws : ℕ
  pub state : State F
  pub rto_timer : Option ℕ
  pub events : List Event

unfoldable pub connection_params_compatible : ConnectionParams → ConnectionParams → Bool
connection_params_compatible a b =
    leb b.packet_size_out_max a.packet_size_in_max && leb a.packet_size_out_max b.packet_size_in_max

abbrev pub client_params : ConnectionParams
client_params = record { packet_size_in_max = u32_max; packet_size_out_max = u32_max }

module _ {F : Type 0} where
  abbrev pub send_bytes : List ℕ → ClientCore F → ClientCore F
  send_bytes frame_bytes client = record client { sent = client.sent ++ frame_bytes ∷ [] }

  abbrev pub push_event : Event → ClientCore F → ClientCore F
  push_event event client = record client { events = client.events ++ event ∷ [] }

  -- `HostContext` of a client
  unfoldable pub perform : Call → ClientCore F → ClientCore F
  perform (send_frame frame_bytes) client = send_bytes frame_bytes client
  perform (set_rto_timer time_ms) client = record client { rto_timer = some time_ms }
  perform unset_rto_timer client = record client { rto_timer = none }
  perform on_connect client = push_event connect client
  perform on_disconnect client = push_event disconnect client
  perform (on_receive packet_bytes) client = push_event (receive packet_bytes) client
  perform on_timeout client = push_event (error timeout) client

  unfoldable pub perform_all : List Call → ClientCore F → ClientCore F
  unfolding perform
  perform_all [] client = client
  perform_all (c ∷ calls) client = perform_all calls (perform c client)

  -- The context that an operation of the endpoint gets, and the client after the operation.
  abbrev pub context : ClientCore F → Host
  context client = record { calls = []; draws = client.draws }

  unfoldable pub resume : Endpoint F → Host → ClientCore F → ClientCore F
  unfolding perform_all
  resume ep host client =
      perform_all host.calls (record client { state = active ep; draws = host.draws })

  -- `connect_with_config`, once the socket is there, with the nonce that was drawn
  unfoldable pub connect_with_config : Config → ℕ → Run (ClientCore F)
  unfolding validate
  connect_with_config config local_nonce = do
    validate config
    frame ←
        write_handshake_alpha (record { protocol_id = 0; client_nonce = local_nonce })
          frame_size_max
    done (record {
      config = config;
      sent = frame ∷ [];
      draws = 0;
      state = handshake (record {
        phase = alpha;
        timeout_time_ms = config.handshake_timeout_ms;
        timeout_ms = config.handshake_timeout_ms;
        packet_buffer = [];
        frame = frame;
        local_nonce = local_nonce;
      });
      rto_timer = some handshake_resend_timeout_ms;
      events = [];
    })
