-- ===== src/Server/Sound.antt =====
-- What holds of a server (server/mod.rs) throughout: its table, its peers and its timers agree.
use redpine_rs.Common.{
  append_assoc, ℕ, zero, suc, ◌≡◌, ◌⊎◌, ◌∙◌, ◌≤◌, refl, sym, ap, subst, inl, inr, ◌++◌, ◌∷◌, [],
  true, none, some, List, All, map, arith, Bool-cases, Option-cases, Run, length, get_elem?, set,
  ==-self, ==→eq, ◌==◌,
}
use redpine_rs.Common.Ensures.{Ensures, Ensures-done, Ensures-panic, Ensures-bind, Ensures-any}
use redpine_rs.Endpoint.Host.{
  Call, Host, send_frame, set_rto_timer, unset_rto_timer, on_connect, on_disconnect, on_timeout,
  on_receive,
}
use redpine_rs.Endpoint.Connection.{Endpoint}
use redpine_rs.TimerQueue.Rounds.{alive, alive-cons}
use redpine_rs.Server.{ServerCore, Peer}
use redpine_rs.Server.Peers.{Context, perform, perform_all, read, resume, operate}
use redpine_rs.Server.Timers.{member, in_table, upgrade, expired, clear_timer, clear_timers}

pub member-append_left : (r : ℕ) (xs ys : List ℕ) → member r xs ≡ true → member r (xs ++ ys) ≡ true
unfolding member
member-append_left r [] ys h = absurd cc
member-append_left r (x ∷ xs) ys h = ground (arith, member-append_left r xs ys)

pub member-append_right : (r : ℕ) (xs ys : List ℕ) → member r ys ≡ true → member r (xs ++ ys) ≡ true
unfolding member
member-append_right r [] ys h = h
member-append_right r (x ∷ xs) ys h = ground (arith, member-append_right r xs ys)

pub member-append_cases :
    (r : ℕ) (xs ys : List ℕ)
    → member r (xs ++ ys) ≡ true
    → (member r xs ≡ true) ⊎ (member r ys ≡ true)
unfolding member
member-append_cases r [] ys h = inr h
member-append_cases r (x ∷ xs) ys h = elim (Bool-cases (x == r)) [
  | inl e ↦ inl (rw e refl)
  | inr ne ↦ rw ne (member-append_cases r xs ys (rw ne at h))
]

module _ {Addr : Type 0} where
  in_table-here :
      (r : ℕ) (addr : Addr) (table : List (Addr × ℕ)) → in_table r ((addr, r) ∷ table) ≡ true
  unfolding in_table
  in_table-here r addr table = rw (==-self r) refl

  in_table-there :
      (r : ℕ) (addr : Addr) (x : ℕ) (table : List (Addr × ℕ))
      → in_table r table ≡ true
      → in_table r ((addr, x) ∷ table) ≡ true
  unfolding in_table
  in_table-there r addr x table h = ground arith

  pub in_table-entries :
      (before after : List (Addr × ℕ))
      → All (λ (entry : Addr × ℕ). in_table (entry.1) (before ++ after) ≡ true) after
  in_table-entries before [] = tt
  in_table-entries before ((addr, r) ∷ after) = (
    here before,
    subst (λ l. All (λ (entry : Addr × ℕ). in_table (entry.1) l ≡ true) after)
        (append_assoc before ((addr, r) ∷ []) after)
        (in_table-entries (before ++ (addr, r) ∷ []) after),
  )
    where
      here : (xs : List (Addr × ℕ)) → in_table r (xs ++ (addr, r) ∷ after) ≡ true
      here [] = in_table-here r addr after
      here ((a, x) ∷ xs) = in_table-there r a x _ (here xs)

module _ {A : Type 0} where
  pub get_elem?-append :
      (xs ys : List A) (i : ℕ) (x : A) → get_elem? xs i ≡ some x → get_elem? (xs ++ ys) i ≡ some x
  get_elem?-append [] ys i x h = absurd cc
  get_elem?-append (y ∷ xs) ys zero x h = h
  get_elem?-append (y ∷ xs) ys (suc i) x h = get_elem?-append xs ys i x h

module _ {Addr F : Type 0} where
  -- The addresses of the peers, in the order in which they were made.
  abbrev pub addrs : List (Peer Addr F) → List Addr
  addrs heap = map (λ (p : Peer Addr F). p.addr) heap

  pub addrs-set :
      (heap : List (Peer Addr F)) (r : ℕ) (peer peer' : Peer Addr F)
      → get_elem? heap r ≡ some peer
      → peer'.addr ≡ peer.addr
      → addrs (set heap r peer') ≡ addrs heap
  addrs-set [] r peer peer' e same = refl
  addrs-set (p ∷ heap) zero peer peer' e same =
      let here : p ≡ peer = cc in
      ap (λ a. a ∷ addrs heap) (same ∙ ap (λ (q : Peer Addr F). q.addr) (sym here))
  addrs-set (p ∷ heap) (suc r) peer peer' e same =
      ap (λ l. p.addr ∷ l) (addrs-set heap r peer peer' e same)

  -- The table, the timers and the addresses are what they were.
  pub record Unchanged (server server' : ServerCore Addr F) : Type 0 where
    pub config_lem : server'.config ≡ server.config
    pub peers_lem : server'.peers ≡ server.peers
    pub queue_lem : server'.timer_queue ≡ server.timer_queue
    pub addrs_lem : addrs server'.heap ≡ addrs server.heap

  -- The table has no more peers than are allowed; each of its entries names a peer that has the
  -- address of the entry, and that is among the timers.
  pub record IsSound (server : ServerCore Addr F) : Type 0 where
    pub room : length server.peers ≤ server.config.peer_count_max
    pub entries :
        All
          (λ (entry : Addr × ℕ). get_elem? (addrs server.heap) (entry.1) ≡ some (entry.0))
          server.peers
    pub timers : All (λ (entry : Addr × ℕ). member (entry.1) server.timer_queue ≡ true) server.peers

  pub Unchanged-IsSound :
      (server server' : ServerCore Addr F)
      → Unchanged server server'
      → IsSound server
      → IsSound server'
  Unchanged-IsSound server server' u s = record {
    room = rw (u.peers_lem, u.config_lem) s.room;
    entries = rw (u.peers_lem, u.addrs_lem) s.entries;
    timers = rw (u.peers_lem, u.queue_lem) s.timers;
  }

  perform-addr :
      (r : ℕ) (c : Call) (ctx : Context Addr F) → (perform r c ctx).peer.addr ≡ ctx.peer.addr
  unfolding perform
  perform-addr r (send_frame frame) ctx = refl
  perform-addr r (set_rto_timer time_ms) ctx = refl
  perform-addr r unset_rto_timer ctx = refl
  perform-addr r on_connect ctx = refl
  perform-addr r on_disconnect ctx = refl
  perform-addr r (on_receive packet) ctx = refl
  perform-addr r on_timeout ctx = refl

  perform_all-addr :
      (r : ℕ) (calls : List Call) (ctx : Context Addr F)
      → (perform_all r calls ctx).peer.addr ≡ ctx.peer.addr
  unfolding perform_all
  perform_all-addr r [] ctx = refl
  perform_all-addr r (c ∷ calls) ctx =
      perform_all-addr r calls (perform r c ctx) ∙ perform-addr r c ctx

  pub resume-Unchanged :
      (r : ℕ) (peer : Peer Addr F) (ep : Endpoint F) (host : Host) (server : ServerCore Addr F)
      → get_elem? server.heap r ≡ some peer
      → Unchanged server (resume r peer ep host server)
  unfolding resume
  resume-Unchanged r peer ep host server e = record {
    config_lem = refl;
    peers_lem = refl;
    queue_lem = refl;
    addrs_lem = addrs-set server.heap r peer _ e (perform_all-addr r host.calls _);
  }

  -- A peer that is there can be read.
  pub read-Ensures :
      (heap : List (Peer Addr F)) (r : ℕ)
      → Ensures (λ (peer : Peer Addr F). get_elem? heap r ≡ some peer) (read (get_elem? heap r))
  read-Ensures heap r = elim (Option-cases (get_elem? heap r)) [
    | inl e ↦ rw e (Ensures-panic _)
    | inr (peer, e) ↦ rw e (Ensures-done _ peer refl)
  ]

  abbrev pub UnchangedIn : ServerCore Addr F → Run (ServerCore Addr F) → Type 0
  UnchangedIn server m = Ensures (λ (server' : ServerCore Addr F). Unchanged server server') m

  -- No operation on an endpoint touches the table, the timers or the addresses.
  pub operate-Unchanged :
      (r : ℕ) (op : Endpoint F → Host → Run (Endpoint F × Host)) (server : ServerCore Addr F)
      → UnchangedIn server (operate r op server)
  unfolding operate
  operate-Unchanged r op server =
      Ensures-bind (λ (peer : Peer Addr F). get_elem? server.heap r ≡ some peer) _
        (read (get_elem? server.heap r)) _ (read-Ensures server.heap r)
        (λ (peer : Peer Addr F) e.
          Ensures-any _ (op peer.endpoint (record { calls = []; draws = server.draws })) _
            (λ (result : Endpoint F × Host).
              Ensures-done _ (resume r peer result.0 result.1 server)
                (resume-Unchanged r peer result.0 result.1 server e)))

  -- The timer wheel
  clear_timer-addrs :
      (r : ℕ) (heap : List (Peer Addr F))
      → addrs (clear_timer r (get_elem? heap r) heap) ≡ addrs heap
  clear_timer-addrs r heap = elim (Option-cases (get_elem? heap r)) [
    | inl e ↦ rw e refl
    | inr (peer, e) ↦ rw e (addrs-set heap r peer (record peer { rto_timer = none }) e refl)
  ]

  pub clear_timers-addrs :
      (rs : List ℕ) (heap : List (Peer Addr F)) → addrs (clear_timers rs heap) ≡ addrs heap
  unfolding clear_timers
  clear_timers-addrs [] heap = refl
  clear_timers-addrs (r ∷ rs) heap =
      clear_timers-addrs rs (clear_timer r (get_elem? heap r) heap) ∙ clear_timer-addrs r heap

  -- A peer that the table keeps is alive, and goes to the back of the queue.
  pub in_table-upgrade :
      (server : ServerCore Addr F) (r : ℕ)
      → in_table r server.peers ≡ true
      → upgrade server r ≡ some r
  unfolding upgrade
  in_table-upgrade server r h = rw h refl

  pub member-alive :
      (server : ServerCore Addr F) (now_ms r : ℕ) (queue : List ℕ)
      → upgrade server r ≡ some r
      → member r queue ≡ true
      → member r (alive (upgrade server) (expired server now_ms) queue) ≡ true
  unfolding member
  member-alive server now_ms r [] up h = absurd cc
  member-alive server now_ms r (x ∷ queue) up h = elim (Bool-cases (x == r)) [
    | inl e ↦
        let same : x ≡ r = ==→eq x r e in
        rw (alive-cons (upgrade server) (expired server now_ms) x queue, same, up)
          (let self : (r == r) ≡ true = ==-self r in rw self refl)
    | inr ne ↦
        rw (alive-cons (upgrade server) (expired server now_ms) x queue)
          (member-append_right r _ _ (member-alive server now_ms r queue up (rw ne at h)))
  ]
