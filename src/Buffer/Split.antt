-- ===== src/Buffer/Split.antt =====
-- About the fragments that `push` of buffer/reliable.rs and buffer/unreliable.rs makes.
use redpine_rs.Common.{
  ℕ, zero, suc, ◌+◌, ◌-◌, ◌≤◌, ◌<◌, ◌≡◌, sym, ap, ◌∙◌, arith, Bool, true, false, List, [], ◌∷◌,
  ◌++◌, append-nil, length, take, drop, length-take, length-drop, drop-drop, take-append-drop,
  take_all, Bool-cases, inl, inr, ltb, ltb→lt,
}
use redpine_rs.Buffer.{FragmentRc, range_bytes, split_loop, split}

-- The bytes of a fragment in the middle of the packet, and of the last one.
pub middle_bytes :
    (packet : List ℕ) (size index : ℕ)
    → index + size ≤ length packet
    → (length (take (index + size - index) (drop index packet)) ≡ size)
      × (take (index + size - index) (drop index packet) ++ drop (index + size) packet
          ≡ drop index packet)
middle_bytes packet size index h =
    let same : index + size - index ≡ size = omega arith in
    rw same (
      omega (arith, length-take size (drop index packet), length-drop index packet),
      ap (λ t. take size (drop index packet) ++ t) (sym (drop-drop size index packet))
          ∙ take-append-drop size (drop index packet),
    )

pub last_bytes :
    (packet : List ℕ) (index : ℕ)
    → take (length packet - index) (drop index packet) ≡ drop index packet
last_bytes packet index =
    take_all (length packet - index) (drop index packet) (omega (arith, length-drop index packet))

-- The two kinds of fragments that the loop makes.
abbrev pub middle_fragment : ℕ → List ℕ → ℕ → Bool → FragmentRc
middle_fragment size packet index first = record {
  first = first;
  last = false;
  bytes = packet;
  range_start = index;
  range_end = index + size;
}

abbrev pub last_fragment : List ℕ → ℕ → Bool → FragmentRc
last_fragment packet index first = record {
  first = first;
  last = true;
  bytes = packet;
  range_start = index;
  range_end = length packet;
}

abbrev pub joined : List FragmentRc → List ℕ
joined [] = []
joined (f ∷ fs) = range_bytes f ++ joined fs

module _ (size : ℕ) (positive : 0 < size) (packet : List ℕ) where
  joined-split_loop :
      (fuel remaining index : ℕ) (first : Bool)
      → remaining < fuel
      → remaining + index ≡ length packet
      → joined (split_loop size packet fuel remaining index first) ≡ drop index packet
  unfolding split_loop range_bytes
  joined-split_loop zero remaining index first h e = absurd (omega arith)
  joined-split_loop (suc fuel) remaining index first h e = elim (Bool-cases (ltb size remaining)) [
    | inl more ↦
        let lt : size < remaining = ltb→lt _ _ more in
        rw more (
          rw
            (joined-split_loop fuel (remaining - size) (index + size) false (omega arith)
              (omega arith))
            ((middle_bytes packet size index (omega arith)).1))
    | inr done ↦ rw done (append-nil _ ∙ last_bytes packet index)
  ]

  -- For a positive fragment size: the bytes of the fragments of a packet, put together in order,
  -- are the packet.
  pub joined-split : joined (split size packet) ≡ packet
  unfolding split
  joined-split =
      joined-split_loop (length packet + 1) (length packet) 0 true (omega arith) (omega arith)
