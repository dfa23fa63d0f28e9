-- ===== src/Buffer/Unreliable/Whole.antt =====
-- About `receive` of buffer/unreliable.rs when fragments are lost, repeated or out of order.
use redpine_rs.Common.{
  ℕ, ◌≡◌, refl, sym, subst, inl, inr, Bool, true, false, Option, none, some, List, [], ◌∷◌, ◌++◌,
  ◌==◌, ==→eq, Bool-cases, All,
}
use redpine_rs.Common.Word.{wrapping_add}
use redpine_rs.Buffer.{false, true, Bool, List, FragmentRef}
use redpine_rs.Buffer.Unreliable.{
  some, Option, RxBuffer, receive, fragment_is_valid, start_packet, extend_packet,
}
use redpine_rs.Buffer.Unreliable.Assembly.{receive_each, with_packet}

module _ (HasArrived : ℕ → FragmentRef → Type 0) where
  -- The bytes of fragments that have arrived under consecutive ids, the first of them flagged as
  -- first and no other; the id after them, and whether the last of them ends the packet.
  pub data IsRun : List ℕ → ℕ → Bool → Type 0 where
    start :
        {id : ℕ} {f : FragmentRef}
        → HasArrived id f
        → f.first ≡ true
        → IsRun f.bytes (wrapping_add id 1) f.last
    extend :
        {id : ℕ} {f : FragmentRef} {bytes : List ℕ}
        → IsRun bytes id false
        → HasArrived id f
        → f.first ≡ false
        → IsRun (bytes ++ f.bytes) (wrapping_add id 1) f.last

  abbrev pub IsWhole : List ℕ → Type 0
  IsWhole packet = (id : ℕ) × IsRun packet id true

  abbrev pub IsBuild : Option (List ℕ) → ℕ → Type 0
  IsBuild none id = Unit
  IsBuild (some bytes) id = IsRun bytes id false

  abbrev pub IsOutput : Option (List ℕ) → Type 0
  IsOutput none = Unit
  IsOutput (some packet) = IsWhole packet

  abbrev IsGood : RxBuffer × Option (List ℕ) → Type 0
  IsGood (rx, out) = IsBuild rx.current_build rx.base_id × IsOutput out

  start_packet-IsGood :
      (rx : RxBuffer) (id : ℕ) (f : FragmentRef)
      → f.first ≡ true
      → HasArrived id f
      → IsGood (start_packet rx id f)
  unfolding start_packet
  start_packet-IsGood rx id f first h = elim (Bool-cases f.last) [
    | inl last ↦ rw last (
      tt,
      (wrapping_add id 1, subst (λ b. IsRun f.bytes (wrapping_add id 1) b) last (start h first)),
    )
    | inr more ↦ rw more (subst (λ b. IsRun f.bytes (wrapping_add id 1) b) more (start h first), tt)
  ]

  extend_packet-IsGood :
      (rx : RxBuffer) (f : FragmentRef)
      → f.first ≡ false
      → HasArrived rx.base_id f
      → IsBuild rx.current_build rx.base_id
      → IsGood (extend_packet rx rx.base_id f)
  unfolding extend_packet
  extend_packet-IsGood rx f later h g = by_build rx.current_build refl
    where
      by_build :
          (build : Option (List ℕ))
          → rx.current_build ≡ build
          → IsGood (extend_packet rx rx.base_id f)
      by_build none e = rw e (tt, tt)
      by_build (some bytes) e =
          let run : IsRun (bytes ++ f.bytes) (wrapping_add rx.base_id 1) f.last =
            extend (subst (λ b. IsBuild b rx.base_id) e g) h later in
          rw e (elim (Bool-cases f.last) [
            | inl last ↦ rw last (
              tt,
              (
                wrapping_add rx.base_id 1,
                subst (IsRun (bytes ++ f.bytes) (wrapping_add rx.base_id 1)) last run,
              ),
            )
            | inr more ↦
                rw more (subst (IsRun (bytes ++ f.bytes) (wrapping_add rx.base_id 1)) more run, tt)
          ])

  receive-IsGood :
      (rx : RxBuffer) (id : ℕ) (f : FragmentRef)
      → HasArrived id f
      → IsBuild rx.current_build rx.base_id
      → IsGood (receive rx id f)
  unfolding receive
  receive-IsGood rx id f h g = elim (Bool-cases (fragment_is_valid f rx.fragment_size)) [
    | inr bad ↦ rw bad (g, tt)
    | inl valid ↦ rw valid (elim (Bool-cases f.first) [
      | inl first ↦ rw first (start_packet-IsGood rx id f first h)
      | inr later ↦ rw later (elim (Bool-cases (id == rx.base_id)) [
        | inr other ↦ rw other (g, tt)
        | inl next ↦
            let e = ==→eq _ _ next in
            rw next (
              subst (λ i. IsGood (extend_packet rx i f)) (sym e)
                (extend_packet-IsGood rx f later (subst (λ i. HasArrived i f) e h) g))
      ])
    ])
  ]

  with_packet-IsWhole :
      (out : Option (List ℕ)) (r : RxBuffer × List (List ℕ))
      → IsOutput out
      → All IsWhole r.1
      → All IsWhole (with_packet out r).1
  with_packet-IsWhole none r o h = h
  with_packet-IsWhole (some packet) r o h = (o, h)

  -- Whatever arrives, in whatever order, at a receive buffer that holds nothing or such a
  -- beginning: every packet delivered is made of fragments that arrived under consecutive ids,
  -- the first of them and no other flagged as first, and the last flagged as last.
  pub receive_each-IsWhole :
      (rx : RxBuffer) (arrivals : List (ℕ × FragmentRef))
      → IsBuild rx.current_build rx.base_id
      → All (λ a. HasArrived a.0 a.1) arrivals
      → All IsWhole (receive_each rx arrivals).1
  unfolding receive_each
  receive_each-IsWhole rx [] g h = tt
  receive_each-IsWhole rx ((id, f) ∷ arrivals) g h =
      let (rx', out) = receive rx id f in
      let (g', o) = receive-IsGood rx id f h.0 g in
      with_packet-IsWhole out (receive_each rx' arrivals) o
        (receive_each-IsWhole rx' arrivals g' h.1)
