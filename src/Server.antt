-- ===== src/Server.antt =====
-- The server (server/mod.rs) and its peers (server/peer.rs). A peer is shared by the table, the timers,
-- the events that wait and the handles of the program: all of them name it by its place in `heap`,
-- from which the model never removes one. The socket is the list of the frames that were sent.
pub mod Handshake
pub mod Table
pub mod Peers
pub mod Frames
pub mod Timers
pub mod Polling
pub mod Admission
pub mod Sound
pub mod Steps
pub mod Running
pub mod Operations
use redpine_rs.Common.{ℕ, List, [], Option, Run, done, assert, leb, ltb, ◌>>=◌, ◌>>◌}
use redpine_rs.Interface.{ErrorKind}
use redpine_rs.Endpoint.Connection.{Endpoint, ChannelBalanceConfig, default_balance}
use redpine_rs.Endpoint.Connection

abbrev pub peer_count_max_default : ℕ
peer_count_max_default = 8

abbrev pub peer_count_max_max : ℕ
peer_count_max_max = 65536

abbrev pub connection_timeout_default_ms : ℕ
connection_timeout_default_ms = 10000

abbrev pub connection_timeout_min_ms : ℕ
connection_timeout_min_ms = 2000

abbrev pub timer_test_limit : ℕ
timer_test_limit = 24

abbrev pub timer_test_interval_ms : ℕ
timer_test_interval_ms = 250

pub record Config : Type 0 where
  pub peer_count_max : ℕ
  pub connection_timeout_ms : ℕ
  pub channel_balance : ChannelBalanceConfig

abbrev pub default_config : Config
default_config = record {
  peer_count_max = peer_count_max_default;
  connection_timeout_ms = connection_timeout_default_ms;
  channel_balance = default_balance;
}

unfoldable pub validate : Config → Run (Unit {0})
validate config = do
  assert (ltb 0 config.peer_count_max)
  assert (leb config.peer_count_max peer_count_max_max)
  assert (leb connection_timeout_min_ms config.connection_timeout_ms)
  Connection.validate config.channel_balance

-- An event, with the peer that it is about
pub data Event : Type 0 where
  connect disconnect : ℕ → Event
  receive : ℕ → List ℕ → Event
  error : ℕ → ErrorKind → Event

-- `Peer` with its `PeerCore`; what the program keeps with a peer is a number
pub record Peer (Addr F : Type 0) : Type 0 where
  pub addr : Addr
  pub user_data : Option ℕ
  pub rto_timer : Option ℕ
  pub endpoint : Endpoint F

-- `ServerCore`, with the handles that the program holds, and the random bits drawn so far
pub record ServerCore (Addr F : Type 0) : Type 0 where
  pub config : Config
  pub sent : List (List ℕ × Addr)
  pub peers : List (Addr × ℕ)
  pub heap : List (Peer Addr F)
  pub timer_queue : List ℕ
  pub events : List Event
  pub handles : List ℕ
  pub draws : ℕ

-- `bind_with_config`, once the socket is there
unfoldable pub bind_with_config : {Addr F : Type 0} → Config → Run (ServerCore Addr F)
unfolding validate
bind_with_config config = do
  validate config
  done (record {
    config = config;
    sent = [];
    peers = [];
    heap = [];
    timer_queue = [];
    events = [];
    handles = [];
    draws = 0;
  })
