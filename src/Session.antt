-- ===== src/Session.antt =====
-- A client (client.rs) and a server (server/mod.rs) together: the frames of a handshake that are not
-- lost make a connection.
use redpine_rs.Common.{
  lt→ltb, ℕ, ◌≡◌, refl, ◌∙◌, ◌++◌, ◌∷◌, [], ◌<◌, ◌%◌, ◌^◌, true, false, some, List, Bool, arith,
  done, >>=-eq-done, assert, leb, length, get_elem?,
}
use redpine_rs.Common.Word.{IsU32, IsU64, wrapping_sub}
use redpine_rs.Frame.{HandshakeAlphaFrame}
use redpine_rs.Endpoint.Float.{Float}
use redpine_rs.Endpoint.Prio
use redpine_rs.Endpoint.Connection.{Endpoint, ChannelBalanceConfig, StateId, prio_config}
use redpine_rs.Endpoint.Connection
use redpine_rs.Client
use redpine_rs.Client.{ClientCore, connect_with_config, client_params}
use redpine_rs.Client.Handling.{handle_frame, beta_request}
use redpine_rs.Client.Answers.{asked, handle_frame-alpha_ack, handle_frame-beta_ack}
use redpine_rs.Server.{ServerCore, Peer}
use redpine_rs.Server
use redpine_rs.Server.Handshake.{alpha_ack, handshake_timeout_ms}
use redpine_rs.Server.Handshake
use redpine_rs.Server.Handshake.Alpha.{echo_valid}
use redpine_rs.Server.Table.{get, contains_key, insert, is_same}
use redpine_rs.Server.Frames.{handle_server_frame}
use redpine_rs.Server.Admission.{
  joined, handle_server_frame-alpha, handle_server_frame-beta, get_elem?-append_length,
}

balance_accepted :
    (c : ChannelBalanceConfig)
    → Connection.validate c ≡ done tt
    → (prio : Prio.Config) × (prio_config c ≡ done prio)
unfolding Connection.validate
balance_accepted c e =
    let (prio, built, rest) = >>=-eq-done (prio_config c) (λ (p : Prio.Config). done tt) e in
    (prio, built)

config_accepted :
    (config : Client.Config)
    → Client.validate config ≡ done tt
    → (prio : Prio.Config) × (prio_config config.channel_balance ≡ done prio)
unfolding Client.validate
config_accepted config e =
    let (u, first, e1) = >>=-eq-done (assert (leb 2000 config.handshake_timeout_ms)) _ e in
    let (v, second, e2) = >>=-eq-done (assert (leb 2000 config.connection_timeout_ms)) _ e1 in
    balance_accepted config.channel_balance e2

is_same_self : {K : Type 0} (same : Discrete K) (k : K) → is_same same k k ≡ true
unfolding is_same
is_same_self same k =
    elim (same k k) as (λ d. ◌≡◌ {A = Bool} (elim d [ yes e ↦ true | no ne ↦ false ]) true) [
      | yes e ↦ refl
      | no ne ↦ absurd (ne refl)
    ]

get-insert :
    {K V : Type 0} (same : Discrete K) (k : K) (v : V) (table : List (K × V))
    → get same k (insert same k v table) ≡ some v
unfolding get insert
get-insert same k v table = rw (is_same_self same k) refl

module _ {Addr F : Type 0} (same : Discrete Addr) (compute : Addr → ℕ → ℕ → ℕ → ℕ) ⦃f : Float F⦄
    (random : ℕ → Bool) where
  -- A client with a valid configuration connects, and none of the four frames of the handshake is
  -- lost: they are handled at the times `t1` to `t4`. The nonces have 32 bits, and the MACs of the
  -- client's address 64; the server's weights are valid, it does not know the address yet and has
  -- room for one more peer, and its clock of 32 bits goes on by less than 10000 milliseconds
  -- between the two requests. Then every step returns. The server answers the first request and
  -- changes nothing else; it answers the second and has a new peer, found under the client's
  -- address, with an active connection and the event `Connect`. The client has an active
  -- connection, and its one event is `Connect`.
  pub handshake-connects :
      (config : Client.Config) (local_nonce server_nonce other_nonce : ℕ) (addr : Addr)
      (server : ServerCore Addr F) (t1 t2 t3 t4 : ℕ)
      → Client.validate config ≡ done tt
      → IsU32 local_nonce
      → IsU32 server_nonce
      → ((timestamp : ℕ) → IsU64 (compute addr local_nonce server_nonce timestamp))
      → Connection.validate server.config.channel_balance ≡ done tt
      → contains_key same addr server.peers ≡ false
      → length server.peers < server.config.peer_count_max
      → wrapping_sub (t3 % 2 ^ 32) (t1 % 2 ^ 32) < handshake_timeout_ms
      → (client0 client1 client2 : ClientCore F) × (server1 server2 : ServerCore Addr F) × (hello
          answer request admission : List ℕ)
        × (ep : Endpoint F) × (peer : Peer Addr F) × (connect_with_config config local_nonce
            ≡ done client0)
        × (client0.sent ≡ hello ∷ [])
        × (handle_server_frame same compute random hello addr server_nonce t1 server ≡ done server1)
        × (server1 ≡ record server { sent = server.sent ++ (answer, addr) ∷ [] })
        × (handle_frame random answer t2 client0 ≡ done client1)
        × (client1.sent ≡ hello ∷ request ∷ [])
        × (handle_server_frame same compute random request addr other_nonce t3 server1
            ≡ done server2)
        × (server2.sent ≡ server1.sent ++ (admission, addr) ∷ [])
        × (handle_frame random admission t4 client1 ≡ done client2)
        × (client2.state ≡ Client.active ep)
        × (ep.state_id ≡ StateId.active)
        × (client2.events ≡ Client.connect ∷ [])
        × (get same addr server2.peers ≡ some (length server.heap))
        × (get_elem? server2.heap (length server.heap) ≡ some peer)
        × (peer.addr ≡ addr)
        × (peer.endpoint.state_id ≡ StateId.active)
        × (server2.events ≡ server.events ++ Server.connect (length server.heap) ∷ [])
  unfolding connect_with_config beta_request alpha_ack Client.connection_params_compatible
      Handshake.connection_params_compatible
  handshake-connects config local_nonce server_nonce other_nonce addr server t1 t2 t3 t4 valid nonce
        drawn macs balance unknown room soon =
      let frame : HandshakeAlphaFrame = record { protocol_id = 0; client_nonce = local_nonce } in
      let ack = alpha_ack compute frame addr server_nonce t1 in
      let (client_prio, client_accepted) = config_accepted config valid in
      let (server_prio, server_accepted) = balance_accepted server.config.channel_balance balance in
      let (hello, answer, made, first, answer_carries) =
        handle_server_frame-alpha same compute random frame addr server_nonce t1 server refl nonce
          drawn macs in
      let begun : Client.HandshakeState = record {
        phase = Client.alpha;
        timeout_time_ms = config.handshake_timeout_ms;
        timeout_ms = config.handshake_timeout_ms;
        packet_buffer = [];
        frame = hello;
        local_nonce = local_nonce;
      } in
      let client0 : ClientCore F = record {
        config = config;
        sent = hello ∷ [];
        draws = 0;
        state = Client.handshake begun;
        rto_timer = some 2000;
        events = [];
      } in
      let (request, second, request_carries) =
        handle_frame-alpha_ack random answer ack t2 client0 begun answer_carries refl refl refl refl
          (omega arith, omega arith, nonce, drawn, omega arith, macs (t1 % 2 ^ 32)) in
      let client1 = asked random request begun t2 client0 in
      let server1 : ServerCore Addr F = record server {
        sent = server.sent ++ (answer, addr) ∷ [];
      } in
      let (admission, peer, third, own, up, admission_carries) =
        handle_server_frame-beta same compute random request (beta_request ack) addr other_nonce t3
          server1 server_prio request_carries nonce
          (echo_valid compute frame addr server_nonce t1 t3 client_params ∙ lt→ltb _ _ soon) unknown
          room refl server_accepted in
      let (client2, ep, fourth, is_active, ep_up, told, silent) =
        handle_frame-beta_ack random admission _ t4 client1 _ client_prio admission_carries refl
          refl refl refl refl client_accepted in
      (
        client0,
        client1,
        client2,
        server1,
        record (joined same compute addr peer server1) {
          sent = server1.sent ++ (admission, addr) ∷ [];
        },
        hello,
        answer,
        request,
        admission,
        ep,
        peer,
        rw valid (rw made refl),
        refl,
        first,
        refl,
        second,
        refl,
        third,
        refl,
        fourth,
        is_active,
        ep_up,
        told,
        get-insert same addr (length server.heap) server.peers,
        get_elem?-append_length server.heap peer,
        own,
        up,
        refl,
      )
