-- ===== src/Buffer/Unreliable/Assembly.antt =====
-- About `receive` of buffer/unreliable.rs on the fragments of a packet.
use redpine_rs.Common.{ℕ, true, false, Option, none, some, List, [], ◌∷◌, ltb, length, drop}
use redpine_rs.Common.Word.{wrapping_add}
use redpine_rs.Buffer.{
  ltb, [], false, true, drop, length, ◌∷◌, List, FragmentRc, FragmentRef, fragment_ref,
}
use redpine_rs.Buffer.Unreliable.{none, some, Option, RxBuffer, receive}

abbrev pub with_packet : Option (List ℕ) → RxBuffer × List (List ℕ) → RxBuffer × List (List ℕ)
with_packet none (rx, packets) = (rx, packets)
with_packet (some packet) (rx, packets) = (rx, packet ∷ packets)

-- Fragments arrive, each under its id, in any order; the packets that come of it.
unfoldable pub receive_each : RxBuffer → List (ℕ × FragmentRef) → RxBuffer × List (List ℕ)
receive_each rx [] = (rx, [])
receive_each rx ((id, f) ∷ arrivals) =
    let (rx', out) = receive rx id f in with_packet out (receive_each rx' arrivals)

-- Fragments under consecutive ids.
abbrev pub numbered : ℕ → List FragmentRc → List (ℕ × FragmentRef)
numbered id [] = []
numbered id (f ∷ fs) = (id, fragment_ref f) ∷ numbered (wrapping_add id 1) fs

abbrev pub id_after : ℕ → List FragmentRc → ℕ
id_after id [] = id
id_after id (f ∷ fs) = id_after (wrapping_add id 1) fs

abbrev pub building : ℕ → ℕ → Option (List ℕ) → RxBuffer
building size id build = record { fragment_size = size; base_id = id; current_build = build }
