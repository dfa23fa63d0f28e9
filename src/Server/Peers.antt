-- ===== src/Server/Peers.antt =====
-- A peer of the server (server/peer.rs): what its endpoint's calls do, and what the server and the
-- program's handles ask of it.
use redpine_rs.Common.{
  Bool, ℕ, List, [], ◌∷◌, ◌++◌, Option, none, some, Run, done, panic, ◌>>=◌, get_elem?, set,
}
use redpine_rs.Interface.{timeout}
use redpine_rs.Frame.{FrameType}
use redpine_rs.Endpoint.Host.{
  Call, Host, send_frame, set_rto_timer, unset_rto_timer, on_connect, on_disconnect, on_timeout,
  on_receive,
}
use redpine_rs.Endpoint.Float.{Float}
use redpine_rs.Endpoint.FragmentQueues.{SendMode}
use redpine_rs.Endpoint.Connection.{Endpoint, TimeoutAction, endpoint}
use redpine_rs.Endpoint.Connection
use redpine_rs.Endpoint.Connection.Handling as Endpoints
use redpine_rs.Endpoint.Connection.Timeout
use redpine_rs.Server.{Peer, ServerCore, Event, connect, disconnect, receive, error}

-- What `EndpointContext` gives access to: the peer, the socket and the events.
pub record Context (Addr F : Type 0) : Type 0 where
  pub peer : Peer Addr F
  pub sent : List (List ℕ × Addr)
  pub events : List Event

module _ {Addr F : Type 0} where
  unfoldable pub new_peer : Addr → Connection.Config → Run (Peer Addr F)
  new_peer addr endpoint_config = do
    ep ← endpoint endpoint_config
    done (record { addr = addr; user_data = none; rto_timer = none; endpoint = ep })

  abbrev pub push_event : Event → Context Addr F → Context Addr F
  push_event event ctx = record ctx { events = ctx.events ++ event ∷ [] }

  abbrev pub set_timer : Option ℕ → Context Addr F → Context Addr F
  set_timer timer ctx = record ctx { peer = record (ctx.peer) { rto_timer = timer } }

  -- `HostContext` of the peer at `peer_ref`
  unfoldable pub perform : ℕ → Call → Context Addr F → Context Addr F
  perform peer_ref (send_frame frame_bytes) ctx = record ctx {
    sent = ctx.sent ++ (frame_bytes, ctx.peer.addr) ∷ [];
  }
  perform peer_ref (set_rto_timer time_ms) ctx = set_timer (some time_ms) ctx
  perform peer_ref unset_rto_timer ctx = set_timer none ctx
  perform peer_ref on_connect ctx = push_event (connect peer_ref) ctx
  perform peer_ref on_disconnect ctx = push_event (disconnect peer_ref) ctx
  perform peer_ref (on_receive packet_bytes) ctx = push_event (receive peer_ref packet_bytes) ctx
  perform peer_ref on_timeout ctx = push_event (error peer_ref timeout) ctx

  unfoldable pub perform_all : ℕ → List Call → Context Addr F → Context Addr F
  unfolding perform
  perform_all peer_ref [] ctx = ctx
  perform_all peer_ref (c ∷ calls) ctx = perform_all peer_ref calls (perform peer_ref c ctx)

  abbrev pub read : Option (Peer Addr F) → Run (Peer Addr F)
  read none = panic
  read (some peer) = done peer

  -- The server after an operation of the endpoint at `peer_ref`.
  unfoldable pub resume :
      ℕ → Peer Addr F → Endpoint F → Host → ServerCore Addr F → ServerCore Addr F
  unfolding perform_all
  resume peer_ref peer ep host server =
      let ctx = perform_all peer_ref host.calls (record {
        peer = record peer { endpoint = ep };
        sent = server.sent;
        events = server.events;
      }) in
      record server {
        heap = set server.heap peer_ref ctx.peer;
        sent = ctx.sent;
        events = ctx.events;
        draws = host.draws;
      }

  -- An operation of the endpoint at `peer_ref`.
  unfoldable pub operate :
      ℕ
      → (Endpoint F → Host → Run (Endpoint F × Host))
      → ServerCore Addr F
      → Run (ServerCore Addr F)
  unfolding resume
  operate peer_ref op server = do
    peer ← read (get_elem? server.heap peer_ref)
    (ep, host) ← op peer.endpoint (record { calls = []; draws = server.draws })
    done (resume peer_ref peer ep host server)

  unfoldable pub init : ℕ → ServerCore Addr F → Run (ServerCore Addr F)
  unfolding operate
  init peer_ref server = operate peer_ref Connection.init server

  unfoldable pub handle_frame :
      ⦃f : Float F⦄
      → (ℕ → Bool)
      → ℕ
      → FrameType
      → List ℕ
      → ℕ
      → ServerCore Addr F
      → Run (ServerCore Addr F)
  unfolding operate
  handle_frame random peer_ref frame_type payload_bytes now_ms server =
      operate peer_ref (Endpoints.handle_frame random frame_type payload_bytes now_ms) server

  unfoldable pub handle_rto_timer :
      ⦃f : Float F⦄
      → (ℕ → Bool)
      → ℕ
      → ℕ
      → ServerCore Addr F
      → Run (ServerCore Addr F × TimeoutAction)
  unfolding resume
  handle_rto_timer random peer_ref now_ms server = do
    peer ← read (get_elem? server.heap peer_ref)
    (ep, host, action) ←
        Timeout.handle_rto_timer random now_ms peer.endpoint
          (record { calls = []; draws = server.draws })
    done (resume peer_ref peer ep host server, action)

  -- The methods of `PeerHandle`
  unfoldable pub get_data : ℕ → ServerCore Addr F → Run (Option ℕ)
  get_data peer_ref server = do peer ← read (get_elem? server.heap peer_ref); done peer.user_data

  unfoldable pub set_data : ℕ → Option ℕ → ServerCore Addr F → Run (ServerCore Addr F)
  set_data peer_ref user_data server = do
    peer ← read (get_elem? server.heap peer_ref)
    done (record server { heap = set server.heap peer_ref (record peer { user_data = user_data }) })

  unfoldable pub enqueue : ℕ → List ℕ → SendMode → ℕ → ServerCore Addr F → Run (ServerCore Addr F)
  unfolding operate
  enqueue peer_ref packet_bytes mode now_ms server =
      operate peer_ref (λ ep host. done (Connection.enqueue ep packet_bytes mode now_ms, host))
        server

  unfoldable pub flush : (ℕ → Bool) → ℕ → ℕ → ServerCore Addr F → Run (ServerCore Addr F)
  unfolding operate
  flush random peer_ref now_ms server = operate peer_ref (Endpoints.flush random now_ms) server

  unfoldable pub send :
      (ℕ → Bool) → ℕ → List ℕ → SendMode → ℕ → ServerCore Addr F → Run (ServerCore Addr F)
  unfolding operate
  send random peer_ref packet_bytes mode now_ms server =
      operate peer_ref
        (λ ep host.
          Endpoints.flush random now_ms (Connection.enqueue ep packet_bytes mode now_ms) host)
        server

  unfoldable pub disconnect_peer : ℕ → ℕ → ServerCore Addr F → Run (ServerCore Addr F)
  unfolding operate
  disconnect_peer peer_ref now_ms server = operate peer_ref (Endpoints.disconnect now_ms) server
