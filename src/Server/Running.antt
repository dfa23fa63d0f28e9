-- ===== src/Server/Running.antt =====
-- A server that runs (server/mod.rs): frames, timeouts, the program's calls, in any order.
use redpine_rs.Common.{
  ==-self, ℕ, ◌≡◌, ◌∙◌, ◌<◌, refl, ap, inl, inr, ◌++◌, ◌∷◌, [], true, none, some, List, Bool, All,
  arith, Option, Bool-cases, Option-cases, length, get_elem?, leb, replicate,
}
use redpine_rs.Common.Ensures.{Ensures, Ensures-done, Ensures-bind, Ensures-any}
use redpine_rs.Frame.{
  FrameType, HandshakeErrorKind, HandshakeBetaFrame, handshake_alpha, handshake_beta,
}
use redpine_rs.Frame.Envelope.{
  verify_handshake_beta_size_and_crc, verify_minimum_size, verify_crc, read_type, payload,
  simple_read, simple_write, frame_size,
}
use redpine_rs.Frame.Envelope.Simple.{handshake_beta_frame, handshake_beta_ack_frame}
use redpine_rs.Endpoint.Float.{Float}
use redpine_rs.Endpoint.Prio
use redpine_rs.Endpoint.Connection.{Endpoint, prio_config, endpoint}
use redpine_rs.Endpoint.Connection
use redpine_rs.Endpoint.Connection.Handling as Endpoints
use redpine_rs.Server.{ServerCore, Peer}
use redpine_rs.Server.Table.{get, contains_key, insert}
use redpine_rs.Server.Handshake.{
  beta_is_valid, handle_handshake_alpha, connection_params_compatible, server_params,
}
use redpine_rs.Server.Peers.{new_peer, init, handle_frame}
use redpine_rs.Server.Frames.{
  add_peer, admit, answer_beta, handle_handshake_beta, deliver, handle_frame_other, dispatch,
  handle_server_frame,
}
use redpine_rs.Server.Timers.{member}
use redpine_rs.Server.Sound.{
  IsSound, addrs, operate-Unchanged, member-append_left, member-append_right, get_elem?-append,
}
use redpine_rs.Server.Steps.{Soundly, unchanged-Soundly, remove-All, length-remove}

addrs-append :
    {Addr F : Type 0} (heap : List (Peer Addr F)) (peer : Peer Addr F)
    → addrs (heap ++ peer ∷ []) ≡ addrs heap ++ peer.addr ∷ []
addrs-append [] peer = refl
addrs-append (p ∷ heap) peer = ap (λ l. p.addr ∷ l) (addrs-append heap peer)

get_elem?-addrs_last :
    {Addr F : Type 0} (heap : List (Peer Addr F)) (peer : Peer Addr F)
    → get_elem? (addrs (heap ++ peer ∷ [])) (length heap) ≡ some (peer.addr)
get_elem?-addrs_last [] peer = refl
get_elem?-addrs_last (p ∷ heap) peer = get_elem?-addrs_last heap peer

member_self : (r : ℕ) → member r (r ∷ []) ≡ true
unfolding member
member_self r = rw (==-self r) refl

All-imp :
    {A : Type 0} (P Q : A → Type 0) (xs : List A) → ((x : A) → P x → Q x) → All P xs → All Q xs
All-imp P Q [] f all = tt
All-imp P Q (x ∷ xs) f (here, all) = (f x here, All-imp P Q xs f all)

module _ {Addr F : Type 0} (same : Discrete Addr) (compute : Addr → ℕ → ℕ → ℕ → ℕ) where
  -- A peer that is entered under its address, where there is room
  entered-IsSound :
      (addr : Addr) (peer : Peer Addr F) (server : ServerCore Addr F)
      → peer.addr ≡ addr
      → length server.peers < server.config.peer_count_max
      → IsSound server
      → IsSound (record server {
        heap = server.heap ++ peer ∷ [];
        peers = insert same addr (length server.heap) server.peers;
        timer_queue = server.timer_queue ++ length server.heap ∷ [];
      })
  unfolding insert
  entered-IsSound addr peer server own room s = record {
    room = omega (arith, length-remove same addr server.peers);
    entries = (
      get_elem?-addrs_last server.heap peer ∙ ap some own,
      remove-All same _ addr server.peers (
          All-imp (λ (entry : Addr × ℕ). get_elem? (addrs server.heap) (entry.1) ≡ some (entry.0))
            (λ (entry : Addr × ℕ).
              get_elem? (addrs (server.heap ++ peer ∷ [])) (entry.1) ≡ some (entry.0))
            server.peers
            (λ (entry : Addr × ℕ) e.
              ap (λ l. get_elem? l (entry.1)) (addrs-append server.heap peer)
              ∙ get_elem?-append (addrs server.heap) (peer.addr ∷ []) (entry.1) (entry.0) e)
            s.entries),
    );
    timers = (
      member-append_right (length server.heap) server.timer_queue _
          (member_self (length server.heap)),
      remove-All same _ addr server.peers (
          All-imp (λ (entry : Addr × ℕ). member (entry.1) server.timer_queue ≡ true)
            (λ (entry : Addr × ℕ).
              member (entry.1) (server.timer_queue ++ length server.heap ∷ []) ≡ true)
            server.peers
            (λ (entry : Addr × ℕ) e.
              member-append_left (entry.1) server.timer_queue (length server.heap ∷ []) e)
            s.timers),
    );
  }

  add_peer-Soundly :
      (addr : Addr) (server : ServerCore Addr F)
      → length server.peers < server.config.peer_count_max
      → IsSound server
      → Soundly (add_peer same compute addr server)
  unfolding add_peer new_peer init
  add_peer-Soundly addr server room s =
      Ensures-any _ (prio_config server.config.channel_balance) _ (λ (prio : Prio.Config).
        Ensures-bind (λ (peer : Peer Addr F). peer.addr ≡ addr) _ _ _
          (Ensures-any _
            (endpoint (record {
              timeout_time_ms = server.config.connection_timeout_ms;
              prio_config = prio;
            }))
            _ (λ (ep : Endpoint F). Ensures-done _ _ refl))
          (λ (peer : Peer Addr F) own.
            unchanged-Soundly _ _ (entered-IsSound addr peer server own room s)
              (operate-Unchanged (length server.heap) Connection.init _)))

  admit-Soundly :
      (frame : HandshakeBetaFrame) (addr : Addr) (server : ServerCore Addr F)
      → IsSound server
      → Ensures
          (λ (r : Option HandshakeErrorKind × ServerCore Addr F). IsSound (r.1))
          (admit same compute frame addr server)
  unfolding admit
  admit-Soundly frame addr server s = elim (Bool-cases (contains_key same addr server.peers)) [
    | inl known ↦ rw known (Ensures-done _ _ s)
    | inr new ↦ elim (Bool-cases (leb server.config.peer_count_max (length server.peers))) [
      | inl full ↦ rw (new, full) (Ensures-done _ _ s)
      | inr free ↦
          elim (Bool-cases (connection_params_compatible frame.client_params server_params)) [
            | inr strange ↦ rw (new, free, strange) (Ensures-done _ _ s)
            | inl fine ↦
                rw (new, free, fine)
                  (Ensures-bind (λ (server' : ServerCore Addr F). IsSound server') _ _ _
                    (add_peer-Soundly addr server (ground arith) s)
                    (λ (server' : ServerCore Addr F) s'. Ensures-done _ (none, server') s'))
          ]
    ]
  ]

  -- What goes out does not count.
  sent-IsSound :
      (sent : List (List ℕ × Addr)) (server : ServerCore Addr F)
      → IsSound server
      → IsSound (record server { sent = sent })
  sent-IsSound sent server s = record { room = s.room; entries = s.entries; timers = s.timers }

  answer_beta-Soundly :
      (read : Option HandshakeBetaFrame) (addr : Addr) (now_ms : ℕ) (server : ServerCore Addr F)
      → IsSound server
      → Soundly (answer_beta same compute read addr now_ms server)
  unfolding answer_beta
  answer_beta-Soundly none addr now_ms server s = Ensures-done _ server s
  answer_beta-Soundly (some frame) addr now_ms server s =
      elim (Bool-cases (beta_is_valid compute frame addr now_ms)) [
        | inr invalid ↦ rw invalid (Ensures-done _ server s)
        | inl valid ↦ rw valid (
            Ensures-bind (λ (r : Option HandshakeErrorKind × ServerCore Addr F). IsSound (r.1)) _ _
              _ (admit-Soundly frame addr server s)
              (λ (r : Option HandshakeErrorKind × ServerCore Addr F) s'.
                Ensures-any _
                  (simple_write handshake_beta_ack_frame
                    (record { error = r.0; client_nonce = frame.client_nonce })
                    (replicate {A = ℕ} (frame_size handshake_beta_ack_frame) 0))
                  _ (λ (bytes : List ℕ). Ensures-done _ _ (sent-IsSound _ (r.1) s'))))
      ]

  handle_handshake_beta-Soundly :
      (frame_bytes : List ℕ) (addr : Addr) (now_ms : ℕ) (server : ServerCore Addr F)
      → IsSound server
      → Soundly (handle_handshake_beta same compute frame_bytes addr now_ms server)
  unfolding handle_handshake_beta
  handle_handshake_beta-Soundly frame_bytes addr now_ms server s =
      Ensures-any _ (verify_handshake_beta_size_and_crc frame_bytes) _ (λ (valid : Bool).
        elim (Bool-cases valid) [
          | inr wrong ↦ rw wrong (Ensures-done _ server s)
          | inl right ↦ rw right (
              Ensures-any _ (payload frame_bytes) _ (λ (payload_bytes : List ℕ).
                Ensures-any _ (simple_read handshake_beta_frame payload_bytes) _
                  (λ (read : Option HandshakeBetaFrame).
                    answer_beta-Soundly read addr now_ms server s)))
        ])

  module _ ⦃f : Float F⦄ (random : ℕ → Bool) where
    deliver-Soundly :
        (found : Option ℕ) (frame_type : FrameType) (frame_bytes : List ℕ) (now_ms : ℕ)
        (server : ServerCore Addr F)
        → IsSound server
        → Soundly (deliver same compute random found frame_type frame_bytes now_ms server)
    unfolding deliver handle_frame
    deliver-Soundly none frame_type frame_bytes now_ms server s = Ensures-done _ server s
    deliver-Soundly (some r) frame_type frame_bytes now_ms server s =
        Ensures-any _ (verify_crc frame_bytes) _ (λ (valid : Bool). elim (Bool-cases valid) [
          | inr wrong ↦ rw wrong (Ensures-done _ server s)
          | inl right ↦ rw right (
              Ensures-any _ (payload frame_bytes) _ (λ (payload_bytes : List ℕ).
                unchanged-Soundly server _ s (
                  operate-Unchanged r
                    (Endpoints.handle_frame random frame_type payload_bytes now_ms) server)))
        ])

    dispatch-Soundly :
        (read : Option FrameType) (frame_bytes : List ℕ) (addr : Addr) (server_nonce now_ms : ℕ)
        (server : ServerCore Addr F)
        → IsSound server
        → Soundly (dispatch same compute random read frame_bytes addr server_nonce now_ms server)
    unfolding dispatch handle_frame_other
    dispatch-Soundly none frame_bytes addr server_nonce now_ms server s = Ensures-done _ server s
    dispatch-Soundly (some handshake_alpha) frame_bytes addr server_nonce now_ms server s =
        Ensures-any _ (handle_handshake_alpha compute frame_bytes addr server_nonce now_ms) _
          (λ (answer : Option (List ℕ)). elim (Option-cases answer) [
            | inl silent ↦ rw silent (Ensures-done _ server s)
            | inr (bytes, sends) ↦ rw sends (Ensures-done _ _ (sent-IsSound _ server s))
          ])
    dispatch-Soundly (some handshake_beta) frame_bytes addr server_nonce now_ms server s =
        handle_handshake_beta-Soundly frame_bytes addr now_ms server s
    dispatch-Soundly (some frame_type) frame_bytes addr server_nonce now_ms server s =
        deliver-Soundly (get same addr server.peers) frame_type frame_bytes now_ms server s

    pub handle_server_frame-Soundly :
        (frame_bytes : List ℕ) (addr : Addr) (server_nonce now_ms : ℕ) (server : ServerCore Addr F)
        → IsSound server
        → Soundly
            (handle_server_frame same compute random frame_bytes addr server_nonce now_ms server)
    unfolding handle_server_frame
    handle_server_frame-Soundly frame_bytes addr server_nonce now_ms server s =
        elim (Bool-cases (verify_minimum_size frame_bytes)) [
          | inr short ↦ rw short (Ensures-done _ server s)
          | inl long ↦ rw long (
              Ensures-any _ (read_type frame_bytes) _ (λ (read : Option FrameType).
                dispatch-Soundly read frame_bytes addr server_nonce now_ms server s))
        ]
