-- ===== src/Common/Outcome.antt =====
-- What a piece of the program does: it returns, it panics (an `assert!`, a slice or an index out of
-- range, an `unwrap` of `None`, and, as in a debug build, a `debug_assert!`), or it reads or
-- writes outside its buffer through a raw pointer, which Rust leaves undefined. `unfinished` is the
-- model's own: a loop has used up the rounds it was given.
use mathlib.Core.Path.{◌≡◌, refl}
use mathlib.Core.Bool.{Bool, true, false}

pub data Run {ℓ} (A : Type ℓ) : Type ℓ where
  done : A → Run A
  panic undefined unfinished : Run A

infixl 5 ◌>>=◌ ◌>>◌
abbrev pub ◌>>=◌ {ℓ κ} : {A : Type ℓ} {B : Type κ} → Run A → (A → Run B) → Run B
done a >>= f = f a
panic >>= f = panic
undefined >>= f = undefined
unfinished >>= f = unfinished

abbrev pub ◌>>◌ {ℓ} : {B : Type ℓ} → Run (Unit {0}) → Run B → Run B
m >> k = m >>= λ _. k

-- `assert!(b)` and `debug_assert!(b)`
abbrev pub assert : Bool → Run (Unit {0})
assert true = done tt
assert false = panic

pub >>=-eq-done {ℓ κ} :
    {A : Type ℓ} {B : Type κ} (m : Run A) (f : A → Run B) {b : B}
    → (m >>= f) ≡ done b
    → (a : A) × (m ≡ done a) × (f a ≡ done b)
>>=-eq-done (done a) f h = (a, refl, h)
>>=-eq-done panic f h = cc
>>=-eq-done undefined f h = cc
>>=-eq-done unfinished f h = cc
