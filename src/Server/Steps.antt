-- ===== src/Server/Steps.antt =====
-- The steps of a server (server/mod.rs) one by one: each leaves the table, the peers and the timers in
-- agreement.
use redpine_rs.Common.{
  ℕ, ◌≡◌, ◌≤◌, sym, subst, inl, inr, ◌++◌, ◌∷◌, [], true, some, List, Bool, All, arith, Bool-cases,
  Run, length, get_elem?, take, drop, take-append-drop,
}
use redpine_rs.Common.Ensures.{Ensures, Ensures-done, Ensures-bind, Ensures-any}
use redpine_rs.Endpoint.Float.{Float}
use redpine_rs.Endpoint.Host.{Host}
use redpine_rs.Endpoint.Connection.{Endpoint, TimeoutAction, continue, terminate}
use redpine_rs.Endpoint.Connection.Timeout
use redpine_rs.TimerQueue.Rounds.{alive, test-front}
use redpine_rs.Server.{ServerCore, Peer}
use redpine_rs.Server.Table.{is_same, remove}
use redpine_rs.Server.Peers.{read, resume, handle_rto_timer}
use redpine_rs.Server.Timers.{
  member, in_table, upgrade, expired, step_timer_wheel, settle, handle_expired, handle_timeouts,
}
use redpine_rs.Server.Sound.{
  IsSound, Unchanged, Unchanged-IsSound, UnchangedIn, resume-Unchanged, read-Ensures,
  member-append_left, member-append_right, member-append_cases, clear_timers-addrs,
  in_table-upgrade, member-alive, in_table-entries,
}

module _ {Addr : Type 0} where
  All-zip :
      (P Q R : Addr × ℕ → Type 0) (xs : List (Addr × ℕ))
      → ((x : Addr × ℕ) → P x → Q x → R x)
      → All P xs
      → All Q xs
      → All R xs
  All-zip P Q R [] f ps qs = tt
  All-zip P Q R (x ∷ xs) f (p, ps) (q, qs) = (f x p q, All-zip P Q R xs f ps qs)

module _ {Addr : Type 0} (same : Discrete Addr) where
  pub remove-All :
      (P : Addr × ℕ → Type 0) (addr : Addr) (table : List (Addr × ℕ))
      → All P table
      → All P (remove same addr table)
  unfolding remove
  remove-All P addr [] all = tt
  remove-All P addr ((a, r) ∷ table) (here, all) = elim (Bool-cases (is_same same a addr)) [
    | inl e ↦ rw e (remove-All P addr table all)
    | inr ne ↦ rw ne (here, remove-All P addr table all)
  ]

  pub length-remove :
      (addr : Addr) (table : List (Addr × ℕ)) → length (remove same addr table) ≤ length table
  unfolding remove
  length-remove addr [] = omega arith
  length-remove addr ((a, r) ∷ table) = elim (Bool-cases (is_same same a addr)) [
    | inl e ↦ rw e (omega (arith, length-remove addr table))
    | inr ne ↦ rw ne (omega (arith, length-remove addr table))
  ]

module _ {Addr F : Type 0} where
  abbrev pub Soundly : Run (ServerCore Addr F) → Type 0
  Soundly m = Ensures (λ (server : ServerCore Addr F). IsSound server) m

  pub unchanged-Soundly :
      (server : ServerCore Addr F) (m : Run (ServerCore Addr F))
      → IsSound server
      → UnchangedIn server m
      → Soundly m
  unchanged-Soundly server m s u = record {
    at = λ server' e. Unchanged-IsSound server server' (u.at server' e) s;
  }

  -- The queue after a turn of the wheel
  abbrev turned : ℕ → ServerCore Addr F → List ℕ
  turned now_ms server =
      drop 24 server.timer_queue
      ++ alive (upgrade server) (expired server now_ms) (take 24 server.timer_queue)

  member-turned :
      (now_ms r : ℕ) (server : ServerCore Addr F)
      → upgrade server r ≡ some r
      → member r server.timer_queue ≡ true
      → member r (turned now_ms server) ≡ true
  member-turned now_ms r server up h =
      elim (member-append_cases r (take 24 server.timer_queue) (drop 24 server.timer_queue)
        (subst (λ q. member r q ≡ true) (sym (take-append-drop 24 server.timer_queue)) h)) [
          | inl front ↦
              member-append_right r (drop 24 server.timer_queue) _
                (member-alive server now_ms r (take 24 server.timer_queue) up front)
          | inr back ↦ member-append_left r (drop 24 server.timer_queue) _ back
        ]

  step_timer_wheel-IsSound :
      (now_ms : ℕ) (server : ServerCore Addr F)
      → IsSound server
      → Ensures (λ (r : List ℕ × ServerCore Addr F). IsSound (r.1)) (step_timer_wheel now_ms server)
  unfolding step_timer_wheel
  step_timer_wheel-IsSound now_ms server s =
      rw (test-front (upgrade server) (expired server now_ms) 24 server.timer_queue) (
        Ensures-done _ _ (record {
          room = s.room;
          entries = rw (clear_timers-addrs _ server.heap) s.entries;
          timers =
              All-zip (λ (entry : Addr × ℕ). member (entry.1) server.timer_queue ≡ true)
                (λ (entry : Addr × ℕ). in_table (entry.1) server.peers ≡ true) _ server.peers
                (λ (entry : Addr × ℕ) queued kept.
                  member-turned now_ms (entry.1) server (in_table-upgrade server (entry.1) kept)
                    queued)
                s.timers (in_table-entries [] server.peers);
        }))

  module _ (same : Discrete Addr) where
    remove-IsSound :
        (addr : Addr) (server : ServerCore Addr F)
        → IsSound server
        → IsSound (record server { peers = remove same addr server.peers })
    remove-IsSound addr server s = record {
      room = omega (arith, s.room, length-remove same addr server.peers);
      entries = remove-All same _ addr server.peers s.entries;
      timers = remove-All same _ addr server.peers s.timers;
    }

    module _ ⦃f : Float F⦄ (random : ℕ → Bool) where
      settle-Soundly :
          (action : TimeoutAction) (r : ℕ) (server : ServerCore Addr F)
          → IsSound server
          → Soundly (settle same random action r server)
      unfolding settle
      settle-Soundly continue r server s = Ensures-done _ server s
      settle-Soundly terminate r server s =
          Ensures-any _ (read (get_elem? server.heap r)) _
            (λ (peer : Peer Addr F). Ensures-done _ _ (remove-IsSound peer.addr server s))

      handle_rto_timer-Unchanged :
          (r now_ms : ℕ) (server : ServerCore Addr F)
          → Ensures
              (λ (result : ServerCore Addr F × TimeoutAction). Unchanged server (result.0))
              (handle_rto_timer random r now_ms server)
      unfolding handle_rto_timer
      handle_rto_timer-Unchanged r now_ms server =
          Ensures-bind (λ (peer : Peer Addr F). get_elem? server.heap r ≡ some peer) _
            (read (get_elem? server.heap r)) _ (read-Ensures server.heap r)
            (λ (peer : Peer Addr F) e.
              Ensures-any _
                (Timeout.handle_rto_timer random now_ms peer.endpoint
                  (record { calls = []; draws = server.draws }))
                _
                (λ (result : Endpoint F × Host × TimeoutAction).
                  Ensures-done _ (resume r peer result.0 result.1 server, result.2)
                    (resume-Unchanged r peer result.0 result.1 server e)))

      handle_expired-Soundly :
          (clock : ℕ → ℕ) (rs : List ℕ) (server : ServerCore Addr F)
          → IsSound server
          → Soundly (handle_expired same random clock rs server)
      unfolding handle_expired
      handle_expired-Soundly clock [] server s = Ensures-done _ server s
      handle_expired-Soundly clock (r ∷ rs) server s =
          Ensures-bind (λ (result : ServerCore Addr F × TimeoutAction). Unchanged server (result.0))
            _ (handle_rto_timer random r (clock r) server) _
            (handle_rto_timer-Unchanged r (clock r) server)
            (λ (result : ServerCore Addr F × TimeoutAction) u.
              Ensures-bind (λ (server2 : ServerCore Addr F). IsSound server2) _ _ _
                (settle-Soundly result.1 r result.0 (Unchanged-IsSound server result.0 u s))
                (λ (server2 : ServerCore Addr F) s2. handle_expired-Soundly clock rs server2 s2))

      pub handle_timeouts-Soundly :
          (now_ms : ℕ) (clock : ℕ → ℕ) (server : ServerCore Addr F)
          → IsSound server
          → Soundly (handle_timeouts same random now_ms clock server)
      unfolding handle_timeouts
      handle_timeouts-Soundly now_ms clock server s =
          Ensures-bind (λ (r : List ℕ × ServerCore Addr F). IsSound (r.1)) _ _ _
            (step_timer_wheel-IsSound now_ms server s)
            (λ (r : List ℕ × ServerCore Addr F) s1. handle_expired-Soundly clock (r.0) (r.1) s1)
