-- ===== src/Endpoint/Prio/Fair.antt =====
-- About endpoint/prio.rs: the bounds on the counters, and the choice of the next channel.
use redpine_rs.Common.{
  ℕ, zero, suc, ◌+◌, ◌*◌, ◌%◌, ◌^◌, ◌≤◌, ◌<◌, max, ◌≡◌, refl, sym, ap, ◌∙◌, subst, ◌⊎◌, inl, inr,
  Bool, true, false, Option, none, some, arith, ltb, ltb→lt, lt→ltb, ltb_false→le, le→leb,
  Bool-cases, done,
}
use native.Mathlib.Nat.{le-div_iff_mul-le, mul-le-mul_left, mul-le-mul}
use redpine_rs.Endpoint.Prio.{
  check_weight, Config, prio, transformed_weights, config, channel_of, Array4, Prio, choose, next,
  index, store, clamp, mark_sent, mul, data_size_max, weight_max, burst_size_max,
}

abbrev pub counter_bound : ℕ
counter_bound = burst_size_max * weight_max

abbrev pub IsWithin : ℕ → Array4 → Type 0
IsWithin bound a = (a.at0 ≤ bound) × (a.at1 ≤ bound) × (a.at2 ≤ bound) × (a.at3 ≤ bound)

pub record IsValid (p : Prio) : Type 0 where
  pub weights : IsWithin weight_max p.weights
  pub max_bound : p.counter_max ≤ counter_bound
  pub counters : IsWithin p.counter_max p.counters

abbrev pub at : Array4 → ℕ → ℕ
at a zero = a.at0
at a (suc zero) = a.at1
at a (suc (suc zero)) = a.at2
at a (suc (suc (suc i))) = a.at3

abbrev pub ready : Bool → Bool → Bool → Bool → ℕ → Bool
ready ch0 ch1 ch2 ch3 zero = ch0
ready ch0 ch1 ch2 ch3 (suc zero) = ch1
ready ch0 ch1 ch2 ch3 (suc (suc zero)) = ch2
ready ch0 ch1 ch2 ch3 (suc (suc (suc i))) = ch3

-- `channel` is ready and has a counter no greater than any other ready channel's; there is none
-- where no channel is ready.
abbrev pub IsLeast : Array4 → (ℕ → Bool) → Option ℕ → Type 0
IsLeast a r none = (i : ℕ) → i < 4 → r i ≡ false
IsLeast a r (some channel) =
    (channel < 4) × (r channel ≡ true) × ((i : ℕ) → i < 4 → r i ≡ true → at a channel ≤ at a i)

-- The same for the first `k` channels, with the counter of the choice beside it.
abbrev IsBest : Array4 → (ℕ → Bool) → ℕ → Option (ℕ × ℕ) → Type 0
IsBest a r k none = (i : ℕ) → i < k → r i ≡ false
IsBest a r k (some (channel, counter)) =
    (channel < k)
    × (r channel ≡ true)
    × (counter ≡ at a channel)
    × ((i : ℕ) → i < k → r i ≡ true → counter ≤ at a i)

below_or_last : (i k : ℕ) → i < k + 1 → (i < k) ⊎ (i ≡ k)
below_or_last i k h = ground arith

true_and_false {ℓ} : {A : Type ℓ} {b : Bool} → b ≡ true → b ≡ false → A
true_and_false h k = cc

choose-IsBest :
    (a : Array4) (r : ℕ → Bool) (k : ℕ) (o : Option (ℕ × ℕ))
    → IsBest a r k o
    → IsBest a r (k + 1) (choose (r k) k (at a k) o)
unfolding choose
choose-IsBest a r k none best = elim (Bool-cases (r k)) [
  | inl on ↦ rw on (
    omega arith,
    on,
    refl,
    λ i h e. elim (below_or_last i k h) [
      | inl lt ↦ true_and_false e (best i lt)
      | inr eq ↦ subst (λ j. at a k ≤ at a j) (sym eq) (omega arith)
    ],
  )
  | inr off ↦ rw off (λ i h. elim (below_or_last i k h) [
    | inl lt ↦ best i lt
    | inr eq ↦ subst (λ j. r j ≡ false) (sym eq) off
  ])
]
choose-IsBest a r k (some (channel, counter)) (in_range, on, value, least) =
    elim (Bool-cases (r k)) [
      | inl here ↦ elim (Bool-cases (ltb (at a k) counter)) [
        | inl less ↦
            rw (here, less)
              (
                omega arith,
                here,
                refl,
                λ i h e. elim (below_or_last i k h) [
                  | inl lt ↦ omega (arith, least i lt e, ltb→lt _ _ less)
                  | inr eq ↦ subst (λ j. at a k ≤ at a j) (sym eq) (omega arith)
                ],
              )
        | inr more ↦
            rw (here, more)
              (
                omega arith,
                on,
                value,
                λ i h e. elim (below_or_last i k h) [
                  | inl lt ↦ least i lt e
                  | inr eq ↦ subst (λ j. counter ≤ at a j) (sym eq) (ltb_false→le _ _ more)
                ],
              )
      ]
      | inr off ↦ rw off (
        omega arith,
        on,
        value,
        λ i h e. elim (below_or_last i k h) [
          | inl lt ↦ least i lt e
          | inr eq ↦ true_and_false (subst (λ j. r j ≡ true) eq e) off
        ],
      )
    ]

channel_of-IsLeast :
    (a : Array4) (r : ℕ → Bool) (o : Option (ℕ × ℕ)) → IsBest a r 4 o → IsLeast a r (channel_of o)
channel_of-IsLeast a r none best = best
channel_of-IsLeast a r (some (channel, counter)) (in_range, on, value, least) =
    (in_range, on, λ i h e. omega (arith, least i h e, value))

-- `next` chooses a ready channel with a counter no greater than any other ready channel's, and
-- none only where no channel is ready.
pub next-IsLeast :
    (p : Prio) (ch0 ch1 ch2 ch3 : Bool)
    → IsLeast p.counters (ready ch0 ch1 ch2 ch3) (next p ch0 ch1 ch2 ch3)
unfolding next
next-IsLeast p ch0 ch1 ch2 ch3 =
    let a = p.counters in
    let r = ready ch0 ch1 ch2 ch3 in
    channel_of-IsLeast a r _ (
      choose-IsBest a r 3 _ (
        choose-IsBest a r 2 _
          (choose-IsBest a r 1 _ (choose-IsBest a r 0 none (λ i h. absurd (omega arith))))))

-- Adding to a counter does not wrap.
no_wrap :
    (counter data_size weight : ℕ)
    → counter ≤ counter_bound
    → data_size ≤ data_size_max
    → weight ≤ weight_max
    → (counter + mul data_size weight) % 2 ^ 32 ≡ counter + data_size * weight
no_wrap counter data_size weight h k w = let product = mul-le-mul k w in omega arith

-- The counters after `data_size` bytes went out on a channel, without any wrap.
abbrev pub counted : Prio → ℕ → ℕ → Prio
counted p channel_idx data_size =
    let counter = at p.counters channel_idx + data_size * at p.weights channel_idx in
    clamp (record p { counters = store p.counters channel_idx counter }) counter

clamp-IsValid :
    (p : Prio) (counter : ℕ)
    → IsWithin weight_max p.weights
    → p.counter_max ≤ counter_bound
    → IsWithin (max counter p.counter_max) p.counters
    → IsValid (clamp p counter)
unfolding clamp
clamp-IsValid p counter w m c = elim (Bool-cases (ltb p.counter_max counter)) [
  | inl over ↦ rw over (record { weights = w; max_bound = m; counters = ground arith })
  | inr within ↦ rw within (record { weights = w; max_bound = m; counters = ground arith })
]

-- On a well formed state, for a channel and a size that the assertions allow, `mark_sent` is
-- `counted`, without a wrap, and leaves a well formed state.
pub mark_sent-counted :
    (p : Prio) (channel_idx data_size : ℕ)
    → channel_idx < 4
    → data_size ≤ data_size_max
    → IsValid p
    → (mark_sent p channel_idx data_size ≡ done (counted p channel_idx data_size))
      × IsValid (counted p channel_idx data_size)
unfolding mark_sent index store
mark_sent-counted p zero data_size h k v =
    let c = v.counters in
    let w = v.weights in
    let product =
      no_wrap p.counters.at0 data_size p.weights.at0 (omega (arith, v.max_bound)) k (omega arith) in
    (rw (le→leb _ _ k, product) refl, clamp-IsValid _ _ w v.max_bound (ground arith))
mark_sent-counted p (suc zero) data_size h k v =
    let c = v.counters in
    let w = v.weights in
    let product =
      no_wrap p.counters.at1 data_size p.weights.at1 (omega (arith, v.max_bound)) k (omega arith) in
    (rw (le→leb _ _ k, product) refl, clamp-IsValid _ _ w v.max_bound (ground arith))
mark_sent-counted p (suc (suc zero)) data_size h k v =
    let c = v.counters in
    let w = v.weights in
    let product =
      no_wrap p.counters.at2 data_size p.weights.at2 (omega (arith, v.max_bound)) k (omega arith) in
    (rw (le→leb _ _ k, product) refl, clamp-IsValid _ _ w v.max_bound (ground arith))
mark_sent-counted p (suc (suc (suc zero))) data_size h k v =
    let c = v.counters in
    let w = v.weights in
    let product =
      no_wrap p.counters.at3 data_size p.weights.at3 (omega (arith, v.max_bound)) k (omega arith) in
    (rw (le→leb _ _ k, product) refl, clamp-IsValid _ _ w v.max_bound (ground arith))
mark_sent-counted p (suc (suc (suc (suc i)))) data_size h k v = absurd (omega arith)

abbrev pub IsWeight : ℕ → Type 0
IsWeight w = (0 < w) × (w ≤ weight_max)

abbrev pub product4 : Array4 → ℕ
product4 w = w.at0 * w.at1 * w.at2 * w.at3

-- The settings that `Config::new` accepts.
pub record IsAccepted (w : Array4) (burst_size : ℕ) : Type 0 where
  pub weight0 : IsWeight w.at0
  pub weight1 : IsWeight w.at1
  pub weight2 : IsWeight w.at2
  pub weight3 : IsWeight w.at3
  pub product : product4 w ≤ weight_max
  pub burst : (0 < burst_size) × (burst_size ≤ burst_size_max)

-- A factor is at most the product of the others with it.
le_product : (a b : ℕ) → 0 < b → a ≤ a * b
le_product a b h = omega (arith, mul-le-mul_left {m = 1} {n = b} a h)

-- Without the wraps of `u32`, the factors being small.
mul_exact : (a b : ℕ) → a * b ≤ counter_bound → mul a b ≡ a * b
mul_exact a b h = omega arith

three :
    (a b c d : ℕ)
    → 0 < c
    → 0 < d
    → a * b * c * d ≤ weight_max
    → (mul (mul a b) c ≡ a * b * c) × (a * b * c ≤ weight_max)
three a b c d hc hd h =
    let abc : a * b * c ≤ a * b * c * d = le_product (a * b * c) d hd in
    let ab : a * b ≤ a * b * c = le_product (a * b) c hc in
    let inner : mul a b ≡ a * b = mul_exact a b (omega arith) in
    (ap (λ x. mul x c) inner ∙ mul_exact (a * b) c (omega arith), omega arith)

check_weight-IsWeight : (x : ℕ) → IsWeight x → check_weight x ≡ done tt
check_weight-IsWeight x (h, k) = rw (lt→ltb 0 x h, le→leb x weight_max k) refl

-- For weights from 1 to 256 whose product is at most 256, and a burst size from 1 to its maximum:
-- `Config::new` accepts them, its `counter_max` is the burst size times the product without a
-- wrap, and the queue made of it is well formed.
pub config-IsValid :
    (w : Array4) (burst_size : ℕ)
    → IsAccepted w burst_size
    → (c : Config) × (config w burst_size ≡ done c)
      × (c.counter_max ≡ burst_size * product4 w)
      × IsValid (prio c)
unfolding config transformed_weights prio
config-IsValid w burst_size ok =
    let p = ok.product in
    let p0 = three w.at1 w.at2 w.at3 w.at0 ok.weight3.0 ok.weight0.0 (omega arith) in
    let p1 = three w.at0 w.at2 w.at3 w.at1 ok.weight3.0 ok.weight1.0 (omega arith) in
    let p2 = three w.at0 w.at1 w.at3 w.at2 ok.weight3.0 ok.weight2.0 (omega arith) in
    let p3 = three w.at0 w.at1 w.at2 w.at3 ok.weight2.0 ok.weight3.0 p in
    let whole = mul_exact (w.at0 * w.at1 * w.at2) w.at3 (omega arith) in
    let most = mul-le-mul ok.burst.1 p in
    let burst = mul_exact burst_size (product4 w) most in
    rw (check_weight-IsWeight _ ok.weight0, check_weight-IsWeight _ ok.weight1)
      (rw (check_weight-IsWeight _ ok.weight2, check_weight-IsWeight _ ok.weight3)
        (rw (p0.0, p1.0, p2.0, p3.0, whole, burst)
          (rw
            (
              le→leb _ _ ((le-div_iff_mul-le ok.weight3.0).1 p),
              lt→ltb _ _ ok.burst.0,
              le→leb _ _ ok.burst.1,
            )
            (
              _,
              refl,
              refl,
              record {
                weights = (p0.1, p1.1, p2.1, p3.1);
                max_bound = most;
                counters = (omega arith, omega arith, omega arith, omega arith);
              },
            ))))
