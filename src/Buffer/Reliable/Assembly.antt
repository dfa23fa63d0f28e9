-- ===== src/Buffer/Reliable/Assembly.antt =====
-- About `receive` of buffer/reliable.rs on the fragments of a packet.
use redpine_rs.Common.{ℕ, Option, none, some, List, [], ◌∷◌}
use redpine_rs.Common.Word.{wrapping_add}
use redpine_rs.Buffer.{FragmentRc, fragment_ref}
use redpine_rs.Buffer.Reliable.{RxBuffer, receive}

abbrev with_packet : Option (List ℕ) → RxBuffer × List (List ℕ) → RxBuffer × List (List ℕ)
with_packet none (rx, packets) = (rx, packets)
with_packet (some packet) (rx, packets) = (rx, packet ∷ packets)

-- The fragments arrive one after the other, under consecutive ids; the packets that come of it.
unfoldable pub receive_all : RxBuffer → ℕ → List FragmentRc → RxBuffer × List (List ℕ)
receive_all rx id [] = (rx, [])
receive_all rx id (f ∷ fs) =
    let (rx', out) = receive rx id (fragment_ref f) in
    with_packet out (receive_all rx' (wrapping_add id 1) fs)

-- The id after those of the fragments.
abbrev pub id_after : ℕ → List FragmentRc → ℕ
id_after id [] = id
id_after id (f ∷ fs) = id_after (wrapping_add id 1) fs

abbrev pub building : ℕ → ℕ → Option (List ℕ) → RxBuffer
building size id build = record {
  fragment_size = size;
  next_fragment_id = id;
  current_build = build;
}
