-- ===== src/Buffer/Reliable.antt =====
-- buffer/reliable.rs: the send queue with its window and duplicate acks, and the reassembly of
-- fragments that arrive in order.
pub mod Invariant
pub mod Ack
pub mod Resend
pub mod Assembly
use redpine_rs.Common.{
  ℕ, ◌+◌, ◌-◌, Bool, true, false, not, ◌&&◌, Option, none, some, List, [], ◌++◌, length, drop,
  get_elem?, ltb, leb, ◌==◌, if◌then◌else◌, Run, done, panic, assert, ◌>>=◌, ◌>>◌,
}
use redpine_rs.Common.Word.{wrapping_add, wrapping_sub}
use redpine_rs.Buffer.{Window, contains, FragmentRc, FragmentRef, split}

pub record TxBuffer : Type 0 where
  pub fragments : List FragmentRc
  pub next_send_id : ℕ
  pub max_ack_id : ℕ
  pub fragment_size : ℕ
  pub send_window : Window
  pub duplicate_ack_count : ℕ

-- `TxBuffer::new`
unfoldable pub tx_buffer : ℕ → ℕ → ℕ → Run TxBuffer
tx_buffer base_id fragment_size window_size = do
  assert (ltb 0 window_size)
  assert (ltb 0 fragment_size)
  done (record {
    fragments = [];
    next_send_id = base_id;
    max_ack_id = base_id;
    fragment_size = fragment_size;
    send_window = record { base_id = base_id; size = window_size };
    duplicate_ack_count = 0;
  })

unfoldable pub push : TxBuffer → List ℕ → TxBuffer
push tx packet = record tx { fragments = tx.fragments ++ split tx.fragment_size packet }

unfoldable pub peek_sendable : TxBuffer → Option (ℕ × FragmentRc)
unfolding contains
peek_sendable tx =
    if contains tx.send_window tx.next_send_id
    then elim (get_elem? tx.fragments (wrapping_sub tx.next_send_id tx.send_window.base_id)) [
      | none ↦ none
      | some fragment ↦ some (tx.next_send_id, fragment)
    ]
    else none

-- The ids after a fragment has been handed out.
unfoldable pub advance_ids : TxBuffer → TxBuffer
advance_ids tx =
    let next = wrapping_add tx.next_send_id 1 in
    record tx {
      next_send_id = next;
      max_ack_id = if tx.next_send_id == tx.max_ack_id then next else tx.max_ack_id;
    }

unfoldable pub pop_sendable : TxBuffer → TxBuffer × Option (ℕ × FragmentRc)
unfolding contains advance_ids
pop_sendable tx =
    if contains tx.send_window tx.next_send_id
    then elim (get_elem? tx.fragments (wrapping_sub tx.next_send_id tx.send_window.base_id)) [
      | none ↦ (tx, none)
      | some fragment ↦ (advance_ids tx, some (tx.next_send_id, fragment))
    ]
    else (tx, none)

unfoldable pub resend_all : TxBuffer → TxBuffer
resend_all tx = record tx { duplicate_ack_count = 0; next_send_id = tx.send_window.base_id }

-- the first branch of `acknowledge`
unfoldable pub duplicate_ack : TxBuffer → TxBuffer
unfolding resend_all
duplicate_ack tx =
    let counted = record tx { duplicate_ack_count = tx.duplicate_ack_count + 1 } in
    if counted.duplicate_ack_count == 3 then resend_all counted else counted

-- `drain(0..n)` panics where the queue is shorter.
abbrev pub drain : ℕ → List FragmentRc → Run (List FragmentRc)
drain n fragments = if leb n (length fragments) then done (drop n fragments) else panic

unfoldable pub acknowledge : TxBuffer → ℕ → Run (TxBuffer × Bool)
unfolding duplicate_ack
acknowledge tx new_base_id =
    let base_id = tx.send_window.base_id in
    let new_base_delta = wrapping_sub new_base_id base_id in
    let max_ack_delta = wrapping_sub tx.max_ack_id base_id in
    let next_send_delta = wrapping_sub tx.next_send_id base_id in
    if new_base_id == base_id
    then done (duplicate_ack tx, true)
    else if leb new_base_delta max_ack_delta
    then (drain new_base_delta tx.fragments >>= λ rest. done (
      record tx {
        fragments = rest;
        send_window = record { base_id = new_base_id; size = tx.send_window.size };
        next_send_id = if ltb next_send_delta new_base_delta then new_base_id else tx.next_send_id;
        duplicate_ack_count = 0;
      },
      true,
    ))
    else done (tx, false)

-- `current_build` is the buffer of the packet under assembly.
pub record RxBuffer : Type 0 where
  pub fragment_size : ℕ
  pub next_fragment_id : ℕ
  pub current_build : Option (List ℕ)

-- `RxBuffer::new`
unfoldable pub rx_buffer : ℕ → ℕ → Run RxBuffer
rx_buffer base_id fragment_size = do
  assert (ltb 0 fragment_size)
  done (record { fragment_size = fragment_size; next_fragment_id = base_id; current_build = none })

unfoldable pub fragment_is_valid : FragmentRef → ℕ → Bool
fragment_is_valid fragment fragment_size =
    if fragment.last && ltb fragment_size (length fragment.bytes)
    then false
    else if not fragment.last && not (length fragment.bytes == fragment_size)
    then false
    else true

abbrev pub build_or_empty : Option (List ℕ) → List ℕ
build_or_empty none = []
build_or_empty (some buffer) = buffer

unfoldable pub receive : RxBuffer → ℕ → FragmentRef → RxBuffer × Option (List ℕ)
unfolding fragment_is_valid
receive rx fragment_id fragment =
    let buffer = build_or_empty rx.current_build ++ fragment.bytes in
    let next = wrapping_add rx.next_fragment_id 1 in
    if fragment_id == rx.next_fragment_id && fragment_is_valid fragment rx.fragment_size
    then (if fragment.last
        then (record rx { next_fragment_id = next; current_build = none }, some buffer)
        else (record rx { next_fragment_id = next; current_build = some buffer }, none))
    else (rx, none)
