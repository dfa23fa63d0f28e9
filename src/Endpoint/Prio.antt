-- ===== src/Endpoint/Prio.antt =====
-- endpoint/prio.rs: the choice of the channel that sends next, weighted by counters of what each
-- has sent. `u32` arithmetic wraps as in a release build.
pub mod Fair
pub mod Counters
use redpine_rs.Common.{
  ℕ, zero, suc, ◌+◌, ◌-◌, ◌*◌, ◌/◌, ◌%◌, ◌^◌, ◌≤◌, ◌<◌, min, max, ◌≡◌, refl, sym, ap, ◌∙◌, subst,
  ◌≢◌, ◌⊎◌, inl, inr, Bool, true, false, ◌&&◌, ◌||◌, not, Option, none, some, List, [], ◌∷◌, ◌++◌,
  map, append_assoc, arith, ltb, leb, ◌==◌, if◌then◌else◌, ltb→lt, lt→ltb, le→ltb_false,
  ltb_false→le, le→leb, ==→eq, ==-self, Bool-cases, Option-cases, Run, done, panic, assert, ◌>>=◌,
  ◌>>◌, length, get_elem?, take, drop, All, length-drop, bit_and, bit_or, bit_xor,
}

abbrev pub channel_count : ℕ
channel_count = 4

abbrev pub data_size_max : ℕ
data_size_max = 65535

abbrev pub burst_size_max : ℕ
burst_size_max = data_size_max * 255

abbrev pub weight_max : ℕ
weight_max = 256

-- An array of one number for each channel.
pub record Array4 : Type 0 where
  pub at0 : ℕ
  pub at1 : ℕ
  pub at2 : ℕ
  pub at3 : ℕ

unfoldable pub index : Array4 → ℕ → Run ℕ
index a zero = done a.at0
index a (suc zero) = done a.at1
index a (suc (suc zero)) = done a.at2
index a (suc (suc (suc zero))) = done a.at3
index a (suc (suc (suc (suc i)))) = panic

unfoldable pub store : Array4 → ℕ → ℕ → Array4
store a zero x = record a { at0 = x }
store a (suc zero) x = record a { at1 = x }
store a (suc (suc zero)) x = record a { at2 = x }
store a (suc (suc (suc zero))) x = record a { at3 = x }
store a (suc (suc (suc (suc i)))) x = a

abbrev pub map4 : (ℕ → ℕ) → Array4 → Array4
map4 f a = record { at0 = f a.at0; at1 = f a.at1; at2 = f a.at2; at3 = f a.at3 }

pub record Config : Type 0 where
  pub weights : Array4
  pub counter_max : ℕ

-- a product of `u32`
abbrev pub mul : ℕ → ℕ → ℕ
mul a b = a * b % 2 ^ 32

abbrev pub check_weight : ℕ → Run (Unit {0})
check_weight w = assert (ltb 0 w && leb w weight_max)

-- the weights as `Config::new` transforms them
unfoldable pub transformed_weights : Array4 → Array4
transformed_weights w = record {
  at0 = mul (mul w.at1 w.at2) w.at3;
  at1 = mul (mul w.at0 w.at2) w.at3;
  at2 = mul (mul w.at0 w.at1) w.at3;
  at3 = mul (mul w.at0 w.at1) w.at2;
}

-- `Config::new`
unfoldable pub config : Array4 → ℕ → Run Config
unfolding transformed_weights
config w burst_size = do
  check_weight w.at0
  check_weight w.at1
  check_weight w.at2
  check_weight w.at3
  assert (leb (mul (mul w.at0 w.at1) w.at2) (weight_max / w.at3))
  assert (ltb 0 burst_size)
  assert (leb burst_size burst_size_max)
  done (record {
    weights = transformed_weights w;
    counter_max = mul burst_size (mul (mul (mul w.at0 w.at1) w.at2) w.at3);
  })

pub record Prio : Type 0 where
  pub counters : Array4
  pub weights : Array4
  pub counter_max : ℕ

-- `Prio::new`
unfoldable pub prio : Config → Prio
prio c = record {
  counters = record { at0 = 0; at1 = 0; at2 = 0; at3 = 0 };
  weights = c.weights;
  counter_max = c.counter_max;
}

-- One of the four tests of `next`. The choice so far is the channel and its counter, with `none`
-- for `set` being false.
unfoldable pub choose : Bool → ℕ → ℕ → Option (ℕ × ℕ) → Option (ℕ × ℕ)
choose ready channel counter none = if ready then some (channel, counter) else none
choose ready channel counter (some (min_chan, min_val)) =
    if ready && ltb counter min_val then some (channel, counter) else some (min_chan, min_val)

abbrev pub channel_of : Option (ℕ × ℕ) → Option ℕ
channel_of none = none
channel_of (some (min_chan, min_val)) = some min_chan

unfoldable pub next : Prio → Bool → Bool → Bool → Bool → Option ℕ
unfolding choose
next p ch0 ch1 ch2 ch3 =
    let c = p.counters in
    channel_of
      (choose ch3 3 c.at3 (choose ch2 2 c.at2 (choose ch1 1 c.at1 (choose ch0 0 c.at0 none))))

-- The counters after one of them went past the maximum.
unfoldable pub clamp : Prio → ℕ → Prio
clamp p counter =
    if ltb p.counter_max counter
    then record p { counters = map4 (λ c. c - (counter - p.counter_max)) p.counters }
    else p

unfoldable pub mark_sent : Prio → ℕ → ℕ → Run Prio
unfolding index store clamp
mark_sent p channel_idx data_size = do
  assert (ltb channel_idx channel_count)
  assert (leb data_size data_size_max)
  weight ← index p.weights channel_idx
  counter ← index p.counters channel_idx
  let counter' = (counter + mul data_size weight) % 2 ^ 32
  done (clamp (record p { counters = store p.counters channel_idx counter' }) counter')
