-- ===== src/Common/Ensures.antt =====
-- A statement about the result of a piece of the program, where it returns one.
use mathlib.Core.Path.{subst, ◌≡◌}
use redpine_rs.Common.Outcome.{Run, done, panic, unfinished, ◌>>=◌, >>=-eq-done}

pub record Ensures {ℓ} {A : Type ℓ} (P : A → Type 0) (m : Run A) : Type ℓ where
  pub at : (a : A) → m ≡ done a → P a

pub Ensures-done {ℓ} : {A : Type ℓ} (P : A → Type 0) (a : A) → P a → Ensures P (done a)
Ensures-done P a p = record { at = λ b e. subst P (cc) p }

pub Ensures-panic {ℓ} : {A : Type ℓ} (P : A → Type 0) → Ensures P panic
Ensures-panic P = record { at = λ b e. absurd cc }

pub Ensures-unfinished {ℓ} : {A : Type ℓ} (P : A → Type 0) → Ensures P unfinished
Ensures-unfinished P = record { at = λ b e. absurd cc }

pub Ensures-bind {ℓ κ} :
    {A : Type ℓ} {B : Type κ} (P : A → Type 0) (Q : B → Type 0) (m : Run A) (f : A → Run B)
    → Ensures P m
    → ((a : A) → P a → Ensures Q (f a))
    → Ensures Q (m >>= f)
Ensures-bind P Q m f h k = record {
  at = λ b e. let (a, first, second) = >>=-eq-done m f e in (k a (h.at a first)).at b second;
}

pub Ensures-any {ℓ κ} :
    {A : Type ℓ} {B : Type κ} (Q : B → Type 0) (m : Run A) (f : A → Run B)
    → ((a : A) → Ensures Q (f a))
    → Ensures Q (m >>= f)
Ensures-any Q m f k = record {
  at = λ b e. let (a, first, second) = >>=-eq-done m f e in (k a).at b second;
}
