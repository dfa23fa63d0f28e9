-- ===== src/Buffer.antt =====
-- buffer/mod.rs: the window of ids, and the fragments that packets are cut into. The loop that cuts
-- a packet stands here once; both send queues have it.
pub mod Split
pub mod Reliable
pub mod Unreliable
use redpine_rs.Common.{
  ℕ, zero, suc, ◌+◌, ◌-◌, Bool, true, false, List, [], ◌∷◌, length, take, drop, ltb, if◌then◌else◌,
}
use redpine_rs.Common.Word.{wrapping_sub}

pub record Window : Type 0 where
  pub base_id : ℕ
  pub size : ℕ

-- `Window::contains`
unfoldable pub contains : Window → ℕ → Bool
contains w id = ltb (wrapping_sub id w.base_id) w.size

-- `bytes` is the packet that the fragment points into, and the two numbers its `data_range`.
pub record FragmentRc : Type 0 where
  pub first : Bool
  pub last : Bool
  pub bytes : List ℕ
  pub range_start : ℕ
  pub range_end : ℕ

pub record FragmentRef : Type 0 where
  pub first : Bool
  pub last : Bool
  pub bytes : List ℕ

-- `&rc.data[rc.data_range.clone()]`
unfoldable pub range_bytes : FragmentRc → List ℕ
range_bytes rc = take (rc.range_end - rc.range_start) (drop rc.range_start rc.bytes)

-- `From<&FragmentRc> for FragmentRef`
unfoldable pub fragment_ref : FragmentRc → FragmentRef
unfolding range_bytes
fragment_ref rc = record { first = rc.first; last = rc.last; bytes = range_bytes rc }

-- `while bytes_remaining > self.fragment_size`, and the last fragment after it. A round takes at
-- least one byte, so `bytes_remaining + 1` rounds of fuel are enough.
module _ (fragment_size : ℕ) (packet : List ℕ) where
  unfoldable pub split_loop : ℕ → ℕ → ℕ → Bool → List FragmentRc
  split_loop zero bytes_remaining index first = []
  split_loop (suc fuel) bytes_remaining index first =
      let rest = split_loop fuel (bytes_remaining - fragment_size) (index + fragment_size) false in
      if ltb fragment_size bytes_remaining
      then record {
        first = first;
        last = false;
        bytes = packet;
        range_start = index;
        range_end = index + fragment_size;
      }
        ∷ rest
      else record {
        first = first;
        last = true;
        bytes = packet;
        range_start = index;
        range_end = length packet;
      }
        ∷ []

  unfoldable pub split : List FragmentRc
  unfolding split_loop
  split = split_loop (length packet + 1) (length packet) 0 true
