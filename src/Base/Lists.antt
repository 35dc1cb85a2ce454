-- ===== src/Base/Lists.antt =====
-- Lists measured and indexed by native numbers, under the library's names, with the predicates
-- that the components share. `All` and `PairwiseAdj` compute to tuples.
use Prim.Native.Nat.{ℕ, zero, suc, ◌+◌, ◌-◌, ◌≤◌, min}
use mathlib.Core.Path.{◌≡◌, refl, ap, sym, ◌∙◌}
use mathlib.Core.Logic.{◌⊎◌, inl, inr}
use mathlib.Core.Bool.{Bool, true, false}
use mathlib.Core.List.{List, [], ◌∷◌, ◌++◌, map, append-nil, append_assoc}
use mathlib.Core.Option.{Option, none, some}
use native.Mathlib.Omega.{arith}
use llm_chat_platform.Base.Tests.{if◌then◌else◌}

module _ {ℓ} {A : Type ℓ} where
  abbrev pub length : List A → ℕ
  length [] = 0
  length (x ∷ xs) = suc (length xs)

  abbrev pub take : ℕ → List A → List A
  take zero xs = []
  take (suc n) [] = []
  take (suc n) (x ∷ xs) = x ∷ take n xs

  abbrev pub drop : ℕ → List A → List A
  drop zero xs = xs
  drop (suc n) [] = []
  drop (suc n) (x ∷ xs) = drop n xs

  abbrev pub get_elem? : List A → ℕ → Option A
  get_elem? [] i = none
  get_elem? (x ∷ xs) zero = some x
  get_elem? (x ∷ xs) (suc i) = get_elem? xs i

  -- Python's `not xs` is this test.
  abbrev pub is_nil : List A → Bool
  is_nil [] = true
  is_nil (x ∷ xs) = false

  -- `[x for x in xs if p(x)]`, on a Boolean test.
  abbrev pub select : (A → Bool) → List A → List A
  select p [] = []
  select p (x ∷ xs) = let rest = select p xs in if p x then x ∷ rest else rest

  -- `xs[:-1]`
  abbrev pub drop_last : List A → List A
  drop_last [] = []
  drop_last (x ∷ []) = []
  drop_last (x ∷ y ∷ xs) = x ∷ drop_last (y ∷ xs)

module _ {ℓ κ} {A : Type ℓ} where
  abbrev pub All : (A → Type κ) → List A → Type κ
  All P [] = Unit
  All P (x ∷ xs) = P x × All P xs

  pub All-append : (P : A → Type κ) (xs ys : List A) → All P xs → All P ys → All P (xs ++ ys)
  All-append P [] ys hx hy = hy
  All-append P (x ∷ xs) ys hx hy = (hx.0, All-append P xs ys hx.1 hy)

  pub All-append_right : (P : A → Type κ) (xs ys : List A) → All P (xs ++ ys) → All P ys
  All-append_right P [] ys h = h
  All-append_right P (x ∷ xs) ys h = All-append_right P xs ys h.1

  pub All-append_left : (P : A → Type κ) (xs ys : List A) → All P (xs ++ ys) → All P xs
  All-append_left P [] ys h = tt
  All-append_left P (x ∷ xs) ys h = (h.0, All-append_left P xs ys h.1)

  pub All-map : (P Q : A → Type κ) (xs : List A) → ((x : A) → P x → Q x) → All P xs → All Q xs
  All-map P Q [] f h = tt
  All-map P Q (x ∷ xs) f h = (f x h.0, All-map P Q xs f h.1)

  pub All-drop : (P : A → Type κ) (n : ℕ) (xs : List A) → All P xs → All P (drop n xs)
  All-drop P zero xs h = h
  All-drop P (suc n) [] h = h
  All-drop P (suc n) (x ∷ xs) h = All-drop P n xs h.1

  pub All-take : (P : A → Type κ) (n : ℕ) (xs : List A) → All P xs → All P (take n xs)
  All-take P zero xs h = tt
  All-take P (suc n) [] h = h
  All-take P (suc n) (x ∷ xs) h = (h.0, All-take P n xs h.1)

module _ {ℓ} {A : Type ℓ} where
  pub length-append : (xs ys : List A) → length (xs ++ ys) ≡ length xs + length ys
  length-append [] ys = omega arith
  length-append (x ∷ xs) ys = omega (arith, length-append xs ys)

  pub length-take : (n : ℕ) (xs : List A) → length (take n xs) ≡ min n (length xs)
  length-take zero xs = omega arith
  length-take (suc n) [] = omega arith
  length-take (suc n) (x ∷ xs) = omega (arith, length-take n xs)

  pub length-drop : (n : ℕ) (xs : List A) → length (drop n xs) ≡ length xs - n
  length-drop zero xs = omega arith
  length-drop (suc n) [] = omega arith
  length-drop (suc n) (x ∷ xs) = omega (arith, length-drop n xs)

  pub take-append-drop : (n : ℕ) (xs : List A) → take n xs ++ drop n xs ≡ xs
  take-append-drop zero xs = refl
  take-append-drop (suc n) [] = refl
  take-append-drop (suc n) (x ∷ xs) = ap (λ r. x ∷ r) (take-append-drop n xs)

  pub take-eq_of_le : (n : ℕ) (xs : List A) → length xs ≤ n → take n xs ≡ xs
  take-eq_of_le zero [] h = refl
  take-eq_of_le zero (x ∷ xs) h = absurd (omega arith)
  take-eq_of_le (suc n) [] h = refl
  take-eq_of_le (suc n) (x ∷ xs) h = ap (λ r. x ∷ r) (take-eq_of_le n xs (omega arith))

  pub length-drop_last : (xs : List A) → length (drop_last xs) ≡ length xs - 1
  length-drop_last [] = omega arith
  length-drop_last (x ∷ []) = omega arith
  length-drop_last (x ∷ y ∷ xs) = omega (arith, length-drop_last (y ∷ xs))

  -- Order kept, elements left out: a prefix, a suffix, and a subsequence.
  abbrev pub StartsWith : List A → List A → Type ℓ
  StartsWith pre xs = (rest : List A) × (xs ≡ pre ++ rest)

  abbrev pub EndsWith : List A → List A → Type ℓ
  EndsWith suf xs = (rest : List A) × (xs ≡ rest ++ suf)

  pub EndsWith-refl : (xs : List A) → EndsWith xs xs
  EndsWith-refl xs = ([], refl)

  pub length-suffix-le : (xs ys : List A) → EndsWith ys xs → length ys ≤ length xs
  length-suffix-le xs ys (rest, e) = omega (arith, ap length e, length-append rest ys)

  pub EndsWith-cons : (x : A) (ys xs : List A) → EndsWith ys xs → EndsWith ys (x ∷ xs)
  EndsWith-cons x ys xs (rest, e) = (x ∷ rest, ap (λ r. x ∷ r) e)

  -- A suffix is the whole list or a suffix of its tail.
  pub EndsWith-split :
      (x : A) (xs ys : List A) → EndsWith ys (x ∷ xs) → (ys ≡ x ∷ xs) ⊎ EndsWith ys xs
  EndsWith-split x xs ys ([], e) = inl (sym e)
  EndsWith-split x xs ys (r ∷ rest, e) = inr (rest, cc)

  pub EndsWith-drop : (n : ℕ) (xs : List A) → EndsWith (drop n xs) xs
  EndsWith-drop n xs = (take n xs, sym (take-append-drop n xs))

  pub EndsWith-trans : (xs ys zs : List A) → EndsWith xs ys → EndsWith ys zs → EndsWith xs zs
  EndsWith-trans xs ys zs (r, e) (s, f) =
      (s ++ r, f ∙ ap (λ t. s ++ t) e ∙ sym (append_assoc s r xs))

  pub StartsWith_refl : (xs : List A) → StartsWith xs xs
  StartsWith_refl xs = ([], sym (append-nil xs))

  pub StartsWith-trans :
      (xs ys zs : List A) → StartsWith xs ys → StartsWith ys zs → StartsWith xs zs
  StartsWith-trans xs ys zs (r, e) (s, f) = (r ++ s, f ∙ ap (λ t. t ++ s) e ∙ append_assoc xs r s)

  pub StartsWith-take : (n : ℕ) (xs : List A) → StartsWith (take n xs) xs
  StartsWith-take n xs = (drop n xs, sym (take-append-drop n xs))

  pub StartsWith-drop_last : (xs : List A) → StartsWith (drop_last xs) xs
  StartsWith-drop_last [] = ([], refl)
  StartsWith-drop_last (x ∷ []) = (x ∷ [], refl)
  StartsWith-drop_last (x ∷ y ∷ xs) =
      let (r, e) = StartsWith-drop_last (y ∷ xs) in (r, ap (λ t. x ∷ t) e)

  pub data Subseq : List A → List A → Type ℓ where
    done : Subseq [] []
    keep : (x : A) {ys xs : List A} → Subseq ys xs → Subseq (x ∷ ys) (x ∷ xs)
    skip : (x : A) {ys xs : List A} → Subseq ys xs → Subseq ys (x ∷ xs)

  pub Subseq-nil : (xs : List A) → Subseq [] xs
  Subseq-nil [] = done
  Subseq-nil (x ∷ xs) = skip x (Subseq-nil xs)

  pub length-select : (p : A → Bool) (xs : List A) → length (select p xs) ≤ length xs
  length-select p [] = omega arith
  length-select p (x ∷ xs) = ground (arith, length-select p xs)

module _ {ℓ κ} {A : Type ℓ} {B : Type κ} where
  pub length-map : (f : A → B) (xs : List A) → length (map f xs) ≡ length xs
  length-map f [] = refl
  length-map f (x ∷ xs) = ap suc (length-map f xs)

  abbrev pub flat_map : (A → List B) → List A → List B
  flat_map f [] = []
  flat_map f (x ∷ xs) = f x ++ flat_map f xs

  pub flat_map-append :
      (f : A → List B) (xs ys : List A) → flat_map f (xs ++ ys) ≡ flat_map f xs ++ flat_map f ys
  flat_map-append f [] ys = refl
  flat_map-append f (x ∷ xs) ys =
      ap (λ t. f x ++ t) (flat_map-append f xs ys) ∙ sym (append_assoc (f x) _ _)

module _ {ℓ} {A : Type ℓ} where
  pub data Member (x : A) : List A → Type ℓ where
    here : {xs : List A} → Member x (x ∷ xs)
    there : {y : A} {xs : List A} → Member x xs → Member x (y ∷ xs)

  pub Member-append_left : {x : A} {xs : List A} (ys : List A) → Member x xs → Member x (xs ++ ys)
  Member-append_left ys here = here
  Member-append_left ys (there m) = there (Member-append_left ys m)

  pub Member-append_right : {x : A} (xs : List A) {ys : List A} → Member x ys → Member x (xs ++ ys)
  Member-append_right [] m = m
  Member-append_right (y ∷ xs) m = there (Member-append_right xs m)
