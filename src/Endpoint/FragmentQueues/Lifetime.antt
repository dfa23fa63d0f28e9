-- ===== src/Endpoint/FragmentQueues/Lifetime.antt =====
-- About the send queues of endpoint/mod.rs from the start on: any sequence of packets, acks,
-- timeouts and flushes.
use redpine_rs.Common.{
  append-All, drop-All, ℕ, zero, suc, ◌+◌, ◌-◌, ◌≤◌, ◌<◌, ◌≡◌, refl, sym, subst, inl, inr, Bool,
  true, false, Option, none, some, List, [], ◌∷◌, map, arith, ltb, ◌==◌, ltb→lt, ltb_false→le,
  Bool-cases, Run, done, ◌>>=◌, length, drop, All, length-take,
}
use redpine_rs.Common.Word.{IsU32}
use redpine_rs.Frame.Envelope.Writing.{holding}
use redpine_rs.Buffer.{FragmentRc, range_bytes, split_loop, split}
use redpine_rs.Buffer.Unreliable.{TxEntry}
use redpine_rs.Buffer.Reliable
use redpine_rs.Buffer.Unreliable
use redpine_rs.Buffer.Reliable.{duplicate_ack}
use redpine_rs.Buffer.Reliable.Invariant
use redpine_rs.Buffer.Reliable.Invariant.{
  IsAcked, fresh, duplicate, refused, acknowledged, acknowledge-IsAcked, duplicate_ack-IsValid,
  acknowledged-IsValid, push-IsValid, resend_all-IsValid,
}
use redpine_rs.Endpoint.Prio.{Config, prio, data_size_max}
use redpine_rs.Endpoint.Prio.Fair
use redpine_rs.Endpoint.FragmentQueues.{
  FragmentQueues, SendMode, reliable, unreliable, enqueue, acknowledge, handle_timeout, flush,
}
use redpine_rs.Endpoint.FragmentQueues.Ready.{IsCarried, IsReady}

module _ (size : ℕ) (packet : List ℕ) (small : size ≤ data_size_max) where
  split_loop-IsCarried :
      (fuel remaining index : ℕ) (first : Bool)
      → remaining + index ≡ length packet
      → All IsCarried (split_loop size packet fuel remaining index first)
  unfolding split_loop range_bytes
  split_loop-IsCarried zero remaining index first e = tt
  split_loop-IsCarried (suc fuel) remaining index first e = elim (Bool-cases (ltb size remaining)) [
    | inl more ↦
        let lt : size < remaining = ltb→lt _ _ more in
        rw more (
          omega (arith, length-take (index + size - index) (drop index packet)),
          split_loop-IsCarried fuel (remaining - size) (index + size) false (omega arith),
        )
    | inr last ↦
        let le : remaining ≤ size = ltb_false→le _ _ last in
        rw last (omega (arith, length-take (length packet - index) (drop index packet)), tt)
  ]

  split-IsCarried : All IsCarried (split size packet)
  unfolding split
  split-IsCarried = split_loop-IsCarried (length packet + 1) (length packet) 0 true (omega arith)

timed-All :
    (expire_time_ms : ℕ) (fragments : List FragmentRc)
    → All IsCarried fragments
    → All
        (λ (e : TxEntry). IsCarried e.fragment)
        (map (λ f. record { fragment = f; expire_time_ms = expire_time_ms }) fragments)
timed-All expire_time_ms [] all = tt
timed-All expire_time_ms (f ∷ rest) (here, all) = (here, timed-All expire_time_ms rest all)

pub enqueue-IsReady :
    (q : FragmentQueues) (packet_bytes : List ℕ) (mode : SendMode) (now_ms : ℕ)
    → IsReady q
    → IsReady (enqueue q packet_bytes mode now_ms)
unfolding enqueue Reliable.push Unreliable.push
enqueue-IsReady q packet_bytes reliable now_ms r = record {
  unrel_size = r.unrel_size;
  rel_size = r.rel_size;
  unrel_id = r.unrel_id;
  unrel_sizes = r.unrel_sizes;
  rel_window = push-IsValid q.rel packet_bytes r.rel_window;
  rel_sizes =
      append-All IsCarried q.rel.fragments (split q.rel.fragment_size packet_bytes) r.rel_sizes
        (split-IsCarried q.rel.fragment_size packet_bytes r.rel_size);
  prio = r.prio;
}
enqueue-IsReady q packet_bytes (unreliable timeout_ms) now_ms r = record {
  unrel_size = r.unrel_size;
  rel_size = r.rel_size;
  unrel_id = r.unrel_id;
  unrel_sizes =
      append-All (λ (e : TxEntry). IsCarried e.fragment) q.unrel.fragments _ r.unrel_sizes
        (timed-All _ (split q.unrel.fragment_size packet_bytes)
          (split-IsCarried q.unrel.fragment_size packet_bytes r.unrel_size));
  rel_window = r.rel_window;
  rel_sizes = r.rel_sizes;
  prio = r.prio;
}

-- A reliable queue in place of another one.
with_rel :
    (q : FragmentQueues) (rel : Reliable.TxBuffer)
    → Reliable.Invariant.IsValid rel
    → rel.fragment_size ≡ q.rel.fragment_size
    → All IsCarried rel.fragments
    → IsReady q
    → IsReady (record q { rel = rel })
with_rel q rel v same sizes r = record {
  unrel_size = r.unrel_size;
  rel_size = subst (λ n. n ≤ data_size_max) (sym same) r.rel_size;
  unrel_id = r.unrel_id;
  unrel_sizes = r.unrel_sizes;
  rel_window = v;
  rel_sizes = sizes;
  prio = r.prio;
}

pub handle_timeout-IsReady : (q : FragmentQueues) → IsReady q → IsReady (handle_timeout q)
unfolding handle_timeout Reliable.resend_all
handle_timeout-IsReady q r =
    with_rel q (Reliable.resend_all q.rel) (resend_all-IsValid q.rel r.rel_window) refl r.rel_sizes
      r

duplicate_ack-fragments :
    (tx : Reliable.TxBuffer)
    → ((duplicate_ack tx).fragments ≡ tx.fragments)
      × ((duplicate_ack tx).fragment_size ≡ tx.fragment_size)
unfolding duplicate_ack Reliable.resend_all
duplicate_ack-fragments tx = elim (Bool-cases (tx.duplicate_ack_count + 1 == 3)) [
  | inl third ↦ rw third (refl, refl)
  | inr early ↦ rw early (refl, refl)
]

pub acknowledge-IsReady :
    (q : FragmentQueues) (id : ℕ)
    → IsU32 id
    → IsReady q
    → (q' : FragmentQueues) × (acknowledge q (some id) ≡ done q') × IsReady q'
unfolding acknowledge
acknowledge-IsReady q id u32 r =
    by_case (Reliable.acknowledge q.rel id) (acknowledge-IsAcked q.rel id r.rel_window)
  where
    by_case :
        (m : Run (Reliable.TxBuffer × Bool))
        → IsAcked q.rel id m
        → (q' : FragmentQueues) × ((m >>= λ (a : Reliable.TxBuffer × Bool).
              done (record q { rel = a.0 }))
            ≡ done q')
          × IsReady q'
    by_case _ (duplicate e) =
        let (fragments, size) = duplicate_ack-fragments q.rel in
        (
          _,
          refl,
          with_rel q (duplicate_ack q.rel) (duplicate_ack-IsValid q.rel r.rel_window) size
              (subst (λ fs. All IsCarried fs) (sym fragments) r.rel_sizes) r,
        )
    by_case _ (fresh new a) = (
      _,
      refl,
      with_rel q (acknowledged q.rel id) (acknowledged-IsValid q.rel id u32 a r.rel_window) refl
          (drop-All IsCarried _ q.rel.fragments r.rel_sizes) r,
    )
    by_case _ (refused over) = (_, refl, with_rel q q.rel r.rel_window refl r.rel_sizes r)

-- What happens to the queues: a packet of the program, an ack, a timeout, and a flush behind
-- `content` in a buffer with `tail` after it.
pub data Happening : Type 0 where
  packet : List ℕ → SendMode → ℕ → Happening
  ack : Option ℕ → Happening
  timeout : Happening
  flush_behind : List ℕ → List ℕ → ℕ → Happening

unfoldable pub handle : Happening → FragmentQueues → Run FragmentQueues
handle (packet packet_bytes mode now_ms) q = done (enqueue q packet_bytes mode now_ms)
handle (ack rel_fragment_id) q = acknowledge q rel_fragment_id
handle timeout q = done (handle_timeout q)
handle (flush_behind content tail now_ms) q = do
  (q', fw, size) ← flush q (holding content tail) now_ms
  done q'

unfoldable pub handle_all : List Happening → FragmentQueues → Run FragmentQueues
unfolding handle
handle_all [] q = done q
handle_all (h ∷ rest) q = do q' ← handle h q; handle_all rest q'

-- An ack names a 32-bit id, if any; a flush has the four bytes of the checksum to spare.
abbrev pub IsPossible : Happening → Type 0
IsPossible (packet packet_bytes mode now_ms) = Unit {0}
IsPossible (ack none) = Unit {0}
IsPossible (ack (some id)) = IsU32 id
IsPossible timeout = Unit {0}
IsPossible (flush_behind content tail now_ms) = 4 ≤ length tail

-- The queues that `FragmentTxBuffers::new` makes.
abbrev new_queues : ℕ → ℕ → ℕ → Config → FragmentQueues
new_queues base_id window_size size c = record {
  unrel = record { fragments = []; next_fragment_id = base_id; fragment_size = size };
  rel = record {
    fragments = [];
    next_send_id = base_id;
    max_ack_id = base_id;
    fragment_size = size;
    send_window = record { base_id = base_id; size = window_size };
    duplicate_ack_count = 0;
  };
  prio = prio c;
}
