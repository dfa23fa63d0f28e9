-- ===== src/Server/Table.antt =====
-- The table of peers of server/mod.rs, a hash map by address, as an association list.
use redpine_rs.Common.{Bool, true, false, Option, none, some, List, [], ◌∷◌, if◌then◌else◌}

unfoldable pub is_same : {K : Type 0} → Discrete K → K → K → Bool
is_same same a b = elim (same a b) [ yes e ↦ true | no e ↦ false ]

module _ {K V : Type 0} (same : Discrete K) where
  unfoldable pub get : K → List (K × V) → Option V
  unfolding is_same
  get key [] = none
  get key ((k, v) ∷ rest) = if is_same same k key then some v else get key rest

  unfoldable pub contains_key : K → List (K × V) → Bool
  unfolding is_same
  contains_key key [] = false
  contains_key key ((k, v) ∷ rest) = if is_same same k key then true else contains_key key rest

  unfoldable pub remove : K → List (K × V) → List (K × V)
  unfolding is_same
  remove key [] = []
  remove key ((k, v) ∷ rest) =
      if is_same same k key then remove key rest else (k, v) ∷ remove key rest

  unfoldable pub insert : K → V → List (K × V) → List (K × V)
  unfolding remove
  insert key value table = (key, value) ∷ remove key table
