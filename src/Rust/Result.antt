-- ===== src/Rust/Result.antt =====
-- What a call gives: Rust's `Result<T, String>`, or a panic that unwinds the caller.
use merabriar.Prelude.{Bool, true, false, ◌≡◌, refl, ◌++◌}
use merabriar.Rust.Text.{Text}

pub data Result {ℓ} (A : Type ℓ) : Type ℓ where
  ok : A → Result A
  err : Text → Result A
  panic : Result A

-- The `?` operator; `do` blocks are chains of it.
infixl 5 ◌>>=◌
abbrev pub ◌>>=◌ {ℓ κ} : {A : Type ℓ} {B : Type κ} → Result A → (A → Result B) → Result B
ok a >>= f = f a
err e >>= f = err e
panic >>= f = panic

-- `.map_err(|e| format!("{prefix}{:?}", e))`; the callee's error is carried as its Debug text.
abbrev pub map_err {ℓ} : {A : Type ℓ} → Text → Result A → Result A
map_err prefix (ok a) = ok a
map_err prefix (err e) = err (prefix ++ e)
map_err prefix panic = panic

-- `.unwrap()`
abbrev pub unwrap {ℓ} : {A : Type ℓ} → Result A → Result A
unwrap (ok a) = ok a
unwrap (err e) = panic
unwrap panic = panic

-- `assert!(condition)`
abbrev pub assert : Bool → Result (Unit {0})
assert true = ok tt
assert false = panic

-- To split on a computed result and keep the equation.
pub data Outcome {ℓ} {A : Type ℓ} (r : Result A) : Type ℓ where
  is_ok : (a : A) → r ≡ ok a → Outcome r
  is_err : (e : Text) → r ≡ err e → Outcome r
  is_panic : r ≡ panic → Outcome r

pub Result-cases {ℓ} : {A : Type ℓ} (r : Result A) → Outcome r
Result-cases (ok a) = is_ok a refl
Result-cases (err e) = is_err e refl
Result-cases panic = is_panic refl

-- `?` on a successful chain: every link was successful.
module _ {ℓ κ} {A : Type ℓ} {B : Type κ} where
  pub >>=-eq-ok :
      (first : Result A) (then : A → Result B) {y : B}
      → (first >>= then) ≡ ok y
      → (x : A) × (first ≡ ok x) × (then x ≡ ok y)
  >>=-eq-ok (ok x) then made = (x, refl, made)
  >>=-eq-ok (err _) then made = cc
  >>=-eq-ok panic then made = cc
