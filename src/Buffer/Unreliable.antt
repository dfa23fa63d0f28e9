-- ===== src/Buffer/Unreliable.antt =====
-- buffer/unreliable.rs: the send queue whose fragments expire, and the reassembly that drops a
-- packet when a fragment of it is missing.
pub mod Queue
pub mod Assembly
pub mod Whole
use redpine_rs.Common.{
  ℕ, ◌+◌, Bool, true, false, not, ◌&&◌, Option, none, some, List, [], ◌∷◌, ◌++◌, map, length, ltb,
  leb, ◌==◌, if◌then◌else◌, Run, done, assert, ◌>>=◌, ◌>>◌,
}
use redpine_rs.Common.Word.{wrapping_add}
use redpine_rs.Buffer.{FragmentRc, FragmentRef, split}

pub record TxEntry : Type 0 where
  pub fragment : FragmentRc
  pub expire_time_ms : ℕ

pub record TxBuffer : Type 0 where
  pub fragments : List TxEntry
  pub next_fragment_id : ℕ
  pub fragment_size : ℕ

-- `TxBuffer::new`
unfoldable pub tx_buffer : ℕ → ℕ → Run TxBuffer
tx_buffer base_id fragment_size = do
  assert (ltb 0 fragment_size)
  done (record { fragments = []; next_fragment_id = base_id; fragment_size = fragment_size })

unfoldable pub push : TxBuffer → List ℕ → ℕ → TxBuffer
push tx packet expire_time_ms = record tx {
  fragments =
      tx.fragments
      ++ map (λ f. record { fragment = f; expire_time_ms = expire_time_ms })
          (split tx.fragment_size packet);
}

-- `while let Some(entry) = self.fragments.front()`
unfoldable pub drop_expired : ℕ → List TxEntry → List TxEntry
drop_expired now_ms [] = []
drop_expired now_ms (entry ∷ rest) =
    let later = drop_expired now_ms rest in
    if leb entry.expire_time_ms now_ms then later else entry ∷ rest

unfoldable pub pop_expired : TxBuffer → ℕ → TxBuffer
unfolding drop_expired
pop_expired tx now_ms = record tx { fragments = drop_expired now_ms tx.fragments }

unfoldable pub peek_sendable : TxBuffer → Option (ℕ × FragmentRc)
peek_sendable tx = elim tx.fragments [
  | [] ↦ none
  | entry ∷ rest ↦ some (tx.next_fragment_id, entry.fragment)
]

unfoldable pub pop_sendable : TxBuffer → TxBuffer × Option (ℕ × FragmentRc)
pop_sendable tx = elim tx.fragments [
  | [] ↦ (tx, none)
  | entry ∷ rest ↦ (
    record tx { fragments = rest; next_fragment_id = wrapping_add tx.next_fragment_id 1 },
    some (tx.next_fragment_id, entry.fragment),
  )
]

pub record RxBuffer : Type 0 where
  pub fragment_size : ℕ
  pub base_id : ℕ
  pub current_build : Option (List ℕ)

-- `RxBuffer::new`
unfoldable pub rx_buffer : ℕ → ℕ → Run RxBuffer
rx_buffer base_id fragment_size = do
  assert (ltb 0 fragment_size)
  done (record { fragment_size = fragment_size; base_id = base_id; current_build = none })

unfoldable pub fragment_is_valid : FragmentRef → ℕ → Bool
fragment_is_valid fragment fragment_size =
    if fragment.last && ltb fragment_size (length fragment.bytes)
    then false
    else if not fragment.last && not (length fragment.bytes == fragment_size)
    then false
    else true

-- a fragment with its `first` flag
unfoldable pub start_packet : RxBuffer → ℕ → FragmentRef → RxBuffer × Option (List ℕ)
start_packet rx fragment_id fragment =
    let next = wrapping_add fragment_id 1 in
    if fragment.last
    then (record rx { current_build = none; base_id = next }, some fragment.bytes)
    else (record rx { current_build = some fragment.bytes; base_id = next }, none)

-- any other fragment, with the id expected
unfoldable pub extend_packet : RxBuffer → ℕ → FragmentRef → RxBuffer × Option (List ℕ)
extend_packet rx fragment_id fragment = elim rx.current_build [
  | none ↦ (rx, none)
  | some buffer ↦
      let next = wrapping_add fragment_id 1 in
      if fragment.last
      then (record rx { current_build = none; base_id = next }, some (buffer ++ fragment.bytes))
      else (record rx { current_build = some (buffer ++ fragment.bytes); base_id = next }, none)
]

unfoldable pub receive : RxBuffer → ℕ → FragmentRef → RxBuffer × Option (List ℕ)
unfolding fragment_is_valid start_packet extend_packet
receive rx fragment_id fragment =
    if fragment_is_valid fragment rx.fragment_size
    then (if fragment.first
        then start_packet rx fragment_id fragment
        else if fragment_id == rx.base_id
        then extend_packet rx fragment_id fragment
        else (rx, none))
    else (rx, none)

unfoldable pub reset : RxBuffer → RxBuffer
reset rx = record rx { current_build = none }
