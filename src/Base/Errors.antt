-- ===== src/Base/Errors.antt =====
-- Fallible Python code: a value, or the exception that it raises.
use mathlib.Core.Path.{◌≡◌, refl}
use mathlib.Core.Logic.{◌⊎◌, inl, inr}
use mathlib.Core.Bool.{Bool, true, false}
use Prim.Native.Nat.{ℕ}

-- The exceptions that the modelled code raises or lets through. `integrity` carries the two
-- sequences that its message names.
pub data Exn : Type 0 where
  index_error value_error zero_division unbound_local key_error : Exn
  not_found : Exn
  integrity : (previous current : ℕ) → Exn
  other : ℕ → Exn

pub data Result (A : Type 0) : Type 0 where
  ok : A → Result A
  err : Exn → Result A

abbrev pub guard : (holds : Bool) → Exn → Result (Unit {0})
guard false otherwise = err otherwise
guard true otherwise = ok tt

infixl 5 ◌>>=◌
-- What follows a value; an exception goes through.
abbrev pub ◌>>=◌ : {A B : Type 0} → Result A → (A → Result B) → Result B
err raised_one >>= next = err raised_one
ok value >>= next = next value

pub Result-cases : {A : Type 0} (r : Result A) → ((a : A) × (r ≡ ok a)) ⊎ ((e : Exn) × (r ≡ err e))
Result-cases (ok a) = inl (a, refl)
Result-cases (err e) = inr (e, refl)

infixl 5 ◌>>◌
abbrev pub ◌>>◌ : {C : Type 0} → Result (Unit {0}) → Result C → Result C
first >> second = first >>= λ done. second

-- The two inversions of a bind, by what came out of it.
module _ {A B : Type 0} where
  pub >>=-eq-err :
      (before : Result A) (next : A → Result B) {e : Exn}
      → (before >>= next) ≡ err e
      → (before ≡ err e) ⊎ ((v : A) × (before ≡ ok v) × (next v ≡ err e))
  >>=-eq-err (err x) next outcome = inl cc
  >>=-eq-err (ok v) next outcome = inr (v, refl, outcome)

  pub >>=-eq-ok :
      (before : Result A) (next : A → Result B) {last : B}
      → (before >>= next) ≡ ok last
      → (v : A) × (before ≡ ok v) × (next v ≡ ok last)
  >>=-eq-ok (err x) next outcome = absurd cc
  >>=-eq-ok (ok v) next outcome = (v, refl, outcome)

pub guard-eq-ok : (b : Bool) (e : Exn) {u : Unit {0}} → guard b e ≡ ok u → b ≡ true
guard-eq-ok true e h = refl
guard-eq-ok false e h = absurd cc

pub guard-eq-err : (b : Bool) (e : Exn) {x : Exn} → guard b e ≡ err x → (b ≡ false) × (x ≡ e)
guard-eq-err true e h = absurd cc
guard-eq-err false e h = (refl, cc)
