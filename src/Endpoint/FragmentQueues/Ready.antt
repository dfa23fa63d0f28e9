-- ===== src/Endpoint/FragmentQueues/Ready.antt =====
-- When the send queues of endpoint/mod.rs are well formed, and what a datagram that goes out does to
-- that.
use redpine_rs.Common.{
  ℕ, zero, suc, ◌≤◌, ◌<◌, ◌≡◌, refl, sym, ap, ◌∙◌, subst, inl, inr, true, false, Option, none, some,
  List, [], ◌∷◌, arith, leb, Bool-cases, Option-cases, done, length, get_elem?, All,
}
use redpine_rs.Common.Word.{IsU32}
use redpine_rs.Buffer.{FragmentRc, range_bytes, contains}
use redpine_rs.Buffer.Unreliable.{TxEntry, drop_expired}
use redpine_rs.Buffer.Reliable
use redpine_rs.Buffer.Unreliable
use redpine_rs.Buffer.Reliable.Invariant
use redpine_rs.Buffer.Reliable.Invariant.{delta, pop_sendable-IsValid}
use redpine_rs.Buffer.Reliable.Ack.{peek_sendable-pop_sendable}
use redpine_rs.Endpoint.Prio.{Prio, next, data_size_max}
use redpine_rs.Endpoint.Prio.Fair
use redpine_rs.Endpoint.Prio.Fair.{counted, ready, IsLeast, next-IsLeast, mark_sent-counted}
use redpine_rs.Endpoint.FragmentQueues.{
  Prio, FragmentQueues, expire, is_some, mark_written, pop_channel,
}

-- A fragment whose size fits in a datagram.
abbrev pub IsCarried : FragmentRc → Type 0
IsCarried fragment = length (range_bytes fragment) ≤ data_size_max

pub record IsReady (q : FragmentQueues) : Type 0 where
  pub unrel_size : q.unrel.fragment_size ≤ data_size_max
  pub rel_size : q.rel.fragment_size ≤ data_size_max
  pub unrel_id : IsU32 q.unrel.next_fragment_id
  pub unrel_sizes : All (λ (e : TxEntry). IsCarried e.fragment) q.unrel.fragments
  pub rel_window : Reliable.Invariant.IsValid q.rel
  pub rel_sizes : All IsCarried q.rel.fragments
  pub prio : Fair.IsValid q.prio

-- The fragment that a channel sends next.
abbrev pub head : FragmentQueues → ℕ → Option (ℕ × FragmentRc)
head q zero = Unreliable.peek_sendable q.unrel
head q (suc zero) = Reliable.peek_sendable q.rel
head q (suc (suc channel_idx)) = none

-- The channel that sends next.
abbrev pub choice : FragmentQueues → Option ℕ
choice q = next q.prio (is_some (head q 0)) (is_some (head q 1)) false false

-- The queues after a datagram with `size` bytes of data went out on a channel.
unfoldable pub sent_on : FragmentQueues → ℕ → ℕ → FragmentQueues
sent_on q zero size = record q {
  prio = counted q.prio 0 size;
  unrel = (Unreliable.pop_sendable q.unrel).0;
}
sent_on q (suc channel_idx) size = record q {
  prio = counted q.prio 1 size;
  rel = (Reliable.pop_sendable q.rel).0;
}

drop_expired-All :
    (P : TxEntry → Type 0) (now_ms : ℕ) (entries : List TxEntry)
    → All P entries
    → All P (drop_expired now_ms entries)
unfolding drop_expired
drop_expired-All P now_ms [] all = all
drop_expired-All P now_ms (entry ∷ rest) (here, later) =
    elim (Bool-cases (leb entry.expire_time_ms now_ms)) [
      | inl old ↦ rw old (drop_expired-All P now_ms rest later)
      | inr fresh ↦ rw fresh (here, later)
    ]

pub expire-IsReady : (q : FragmentQueues) (now_ms : ℕ) → IsReady q → IsReady (expire q now_ms)
unfolding Unreliable.pop_expired
expire-IsReady q now_ms r = record {
  unrel_size = r.unrel_size;
  rel_size = r.rel_size;
  unrel_id = r.unrel_id;
  unrel_sizes =
      drop_expired-All (λ (e : TxEntry). IsCarried e.fragment) now_ms q.unrel.fragments
        r.unrel_sizes;
  rel_window = r.rel_window;
  rel_sizes = r.rel_sizes;
  prio = r.prio;
}

get_elem?-All {ℓ κ} :
    {A : Type ℓ} (P : A → Type κ) (xs : List A) (i : ℕ) (x : A)
    → All P xs
    → get_elem? xs i ≡ some x
    → P x
get_elem?-All P [] i x all e = absurd cc
get_elem?-All P (y ∷ ys) zero x (here, later) e = subst P (cc) here
get_elem?-All P (y ∷ ys) (suc i) x (here, later) e = get_elem?-All P ys i x later e

unrel_head :
    (q : FragmentQueues) (id : ℕ) (fragment : FragmentRc)
    → IsReady q
    → head q 0 ≡ some (id, fragment)
    → IsU32 id × IsCarried fragment
unfolding Unreliable.peek_sendable
unrel_head q id fragment r e = ground arith

-- What a channel sends next fits in a datagram.
pub head-IsCarried :
    (q : FragmentQueues) (channel_idx id : ℕ) (fragment : FragmentRc)
    → IsReady q
    → head q channel_idx ≡ some (id, fragment)
    → IsU32 id × IsCarried fragment
unfolding Reliable.peek_sendable
head-IsCarried q zero id fragment r e = unrel_head q id fragment r e
head-IsCarried q (suc zero) id fragment r e =
    elim (Bool-cases (contains q.rel.send_window q.rel.next_send_id)) [
      | inr outside ↦ absurd (
          let e' : ◌≡◌ {A = Option (ℕ × FragmentRc)} none (some (id, fragment)) = rw outside at e in
          cc)
      | inl inside ↦
          elim (Option-cases (get_elem? q.rel.fragments (delta q.rel q.rel.next_send_id))) [
            | inl missing ↦ absurd (
                let e' : ◌≡◌ {A = Option (ℕ × FragmentRc)} none (some (id, fragment)) =
                  rw (inside, missing) at e in
                cc)
            | inr (f, found) ↦
                let e' : ◌≡◌ {A = Option (ℕ × FragmentRc)} (some (q.rel.next_send_id, f))
                    (some (id, fragment)) =
                  rw (inside, found) at e in
                let carried : IsCarried f =
                  get_elem?-All IsCarried q.rel.fragments _ f r.rel_sizes found in
                let pair : ◌≡◌ {A = ℕ × FragmentRc} (q.rel.next_send_id, f) (id, fragment) = cc in
                (
                  subst IsU32 (ap (λ (t : ℕ × FragmentRc). t.0) pair) r.rel_window.next_u32,
                  subst IsCarried (ap (λ (t : ℕ × FragmentRc). t.1) pair) carried,
                )
          ]
    ]
head-IsCarried q (suc (suc channel_idx)) id fragment r e = absurd cc

is_some-some : {A : Type 0} (o : Option A) → is_some o ≡ true → (a : A) × (o ≡ some a)
is_some-some none e = absurd cc
is_some-some (some a) e = (a, refl)

ready_channel :
    (q : FragmentQueues) (channel_idx : ℕ)
    → channel_idx < 4
    → ready (is_some (head q 0)) (is_some (head q 1)) false false channel_idx ≡ true
    → (id : ℕ) × (fragment : FragmentRc) × (head q channel_idx ≡ some (id, fragment))
ready_channel q zero h e = let ((id, fragment), p) = is_some-some (head q 0) e in (id, fragment, p)
ready_channel q (suc zero) h e =
    let ((id, fragment), p) = is_some-some (head q 1) e in (id, fragment, p)
ready_channel q (suc (suc zero)) h e = absurd cc
ready_channel q (suc (suc (suc zero))) h e = absurd cc
ready_channel q (suc (suc (suc (suc i)))) h e = absurd (omega arith)

-- The channel chosen has a fragment to send.
pub choice-head :
    (q : FragmentQueues) (channel_idx : ℕ)
    → choice q ≡ some channel_idx
    → (id : ℕ) × (fragment : FragmentRc) × (head q channel_idx ≡ some (id, fragment))
choice-head q channel_idx e =
    let (below, on, least) =
      subst (IsLeast q.prio.counters (ready (is_some (head q 0)) (is_some (head q 1)) false false))
        e (next-IsLeast q.prio (is_some (head q 0)) (is_some (head q 1)) false false) in
    ready_channel q channel_idx below on

pop_unrel :
    (q : FragmentQueues) (id : ℕ) (fragment : FragmentRc) (prio' : Prio)
    → IsReady q
    → Fair.IsValid prio'
    → head q 0 ≡ some (id, fragment)
    → (pop_channel (record q { prio = prio' }) 0
        ≡ done (record q { prio = prio'; unrel = (Unreliable.pop_sendable q.unrel).0 }))
      × IsReady (record q { prio = prio'; unrel = (Unreliable.pop_sendable q.unrel).0 })
unfolding pop_channel Unreliable.pop_sendable Unreliable.peek_sendable
pop_unrel q id fragment prio' r v e = ground arith

pop_sendable-fragments :
    (tx : Reliable.TxBuffer)
    → ((Reliable.pop_sendable tx).0.fragments ≡ tx.fragments)
      × ((Reliable.pop_sendable tx).0.fragment_size ≡ tx.fragment_size)
unfolding Reliable.pop_sendable Reliable.advance_ids
pop_sendable-fragments tx = elim (Bool-cases (contains tx.send_window tx.next_send_id)) [
  | inr outside ↦ rw outside (refl, refl)
  | inl inside ↦ elim (Option-cases (get_elem? tx.fragments (delta tx tx.next_send_id))) [
    | inl missing ↦ rw (inside, missing) (refl, refl)
    | inr (f, found) ↦ rw (inside, found) (refl, refl)
  ]
]

pop_rel :
    (q : FragmentQueues) (id : ℕ) (fragment : FragmentRc) (prio' : Prio)
    → IsReady q
    → Fair.IsValid prio'
    → head q 1 ≡ some (id, fragment)
    → (pop_channel (record q { prio = prio' }) 1
        ≡ done (record q { prio = prio'; rel = (Reliable.pop_sendable q.rel).0 }))
      × IsReady (record q { prio = prio'; rel = (Reliable.pop_sendable q.rel).0 })
unfolding pop_channel
pop_rel q id fragment prio' r v e =
    let popped : (Reliable.pop_sendable q.rel).1 ≡ some (id, fragment) =
      sym (peek_sendable-pop_sendable q.rel) ∙ e in
    (
      rw popped refl,
      record {
        unrel_size = r.unrel_size;
        rel_size = subst (λ n. n ≤ data_size_max) (sym (pop_sendable-fragments q.rel).1) r.rel_size;
        unrel_id = r.unrel_id;
        unrel_sizes = r.unrel_sizes;
        rel_window = pop_sendable-IsValid q.rel r.rel_window;
        rel_sizes =
            subst (λ fs. All IsCarried fs) (sym (pop_sendable-fragments q.rel).0) r.rel_sizes;
        prio = v;
      },
    )

-- Where a channel has a fragment to send, the queues take note of a datagram and stay well formed.
pub mark_written-sent_on :
    (q : FragmentQueues) (channel_idx id size : ℕ) (fragment : FragmentRc)
    → IsReady q
    → size ≤ data_size_max
    → head q channel_idx ≡ some (id, fragment)
    → (mark_written q channel_idx size ≡ done (sent_on q channel_idx size))
      × IsReady (sent_on q channel_idx size)
unfolding mark_written sent_on
mark_written-sent_on q zero id size fragment r h e =
    let (marked, v) = mark_sent-counted q.prio 0 size (omega arith) h r.prio in
    let (popped, r') = pop_unrel q id fragment (counted q.prio 0 size) r v e in
    (rw marked popped, r')
mark_written-sent_on q (suc zero) id size fragment r h e =
    let (marked, v) = mark_sent-counted q.prio 1 size (omega arith) h r.prio in
    let (popped, r') = pop_rel q id fragment (counted q.prio 1 size) r v e in (rw marked popped, r')
mark_written-sent_on q (suc (suc channel_idx)) id size fragment r h e = absurd cc
