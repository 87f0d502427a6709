-- ===== src/Base/Lists.antt =====
-- Lists measured by the native numbers, Boolean tests on their members, predicates by recursion.
use Prim.Native.Nat.{ℕ, zero, suc, ◌+◌, ◌<◌}
use mathlib.Core.Path.{◌≡◌, refl, ◌∙◌, subst}
use mathlib.Core.Bool.{Bool, true, false, ◌&&◌, ◌||◌}
use mathlib.Core.List.{List, [], ◌∷◌, ◌++◌, map}
use mathlib.Core.Option.{Option, none, some, some-injective}
use mvsync.Base.Tests.{◌==◌, ltb, if◌then◌else◌}
use native.Mathlib.Omega.{arith}

module _ {ℓ} {A : Type ℓ} where
  abbrev pub length : List A → ℕ
  length [] = 0
  length (x ∷ xs) = suc (length xs)

  abbrev pub get_elem? : List A → ℕ → Option A
  get_elem? [] i = none
  get_elem? (x ∷ xs) zero = some x
  get_elem? (x ∷ xs) (suc i) = get_elem? xs i

  -- `xs[i] = f(xs[i])`; out of bounds nothing changes.
  abbrev pub modify : List A → ℕ → (A → A) → List A
  modify [] i f = []
  modify (x ∷ xs) zero f = f x ∷ xs
  modify (x ∷ xs) (suc i) f = x ∷ modify xs i f

  abbrev pub is_empty : List A → Bool
  is_empty [] = true
  is_empty (x ∷ xs) = false

  abbrev pub all : (A → Bool) → List A → Bool
  all p [] = true
  all p (x ∷ xs) = p x && all p xs

  abbrev pub All {κ} : (A → Type κ) → List A → Type κ
  All Q [] = Unit
  All Q (a ∷ rest) = Q a × All Q rest

  pub length-append : (xs ys : List A) → length (xs ++ ys) ≡ length xs + length ys
  length-append [] ys = omega arith
  length-append (x ∷ xs) ys = omega (arith, length-append xs ys)

  pub All-append {κ} :
      (Q : A → Type κ) (front back : List A) → All Q front → All Q back → All Q (front ++ back)
  All-append Q [] back f b = b
  All-append Q (a ∷ front) back f b = (f.0, All-append Q front back f.1 b)

  pub All-of_append {κ} :
      (Q : A → Type κ) (front back : List A) → All Q (front ++ back) → All Q front × All Q back
  All-of_append Q [] back h = (tt, h)
  All-of_append Q (a ∷ front) back h = let (f, b) = All-of_append Q front back h.1 in ((h.0, f), b)

  pub length-modify : (xs : List A) (i : ℕ) (f : A → A) → length (modify xs i f) ≡ length xs
  length-modify [] i f = refl
  length-modify (x ∷ xs) zero f = refl
  length-modify (x ∷ xs) (suc i) f = omega (arith, length-modify xs i f)

  abbrev pub is_some : Option A → Bool
  is_some none = false
  is_some (some _) = true

abbrev pub elem : ℕ → List ℕ → Bool
elem k [] = false
elem k (j ∷ js) = (j == k) || elem k js

pub elem-append_left : (k : ℕ) (xs ys : List ℕ) → elem k xs ≡ true → elem k (xs ++ ys) ≡ true
elem-append_left k [] ys h = ground arith
elem-append_left k (x ∷ xs) ys h = ground (arith, elem-append_left k xs ys)

pub elem-append_self : (k : ℕ) (xs : List ℕ) → elem k (xs ++ k ∷ []) ≡ true
elem-append_self k [] = ground arith
elem-append_self k (x ∷ xs) = ground (arith, elem-append_self k xs)

-- How often a number stands in a list.
abbrev pub count : ℕ → List ℕ → ℕ
count n [] = 0
count n (k ∷ ks) = count n ks + (if k == n then 1 else 0)

pub count-append : (n : ℕ) (ks js : List ℕ) → count n (ks ++ js) ≡ count n ks + count n js
count-append n [] js = omega arith
count-append n (k ∷ ks) js = omega (arith, count-append n ks js)

pub All-mono {ℓ κ μ} :
    {A : Type ℓ} (P : A → Type κ) (Q : A → Type μ) (xs : List A)
    → ((a : A) → P a → Q a)
    → All P xs
    → All Q xs
All-mono P Q [] f h = tt
All-mono P Q (x ∷ xs) f h = (f x h.0, All-mono P Q xs f h.1)

-- What holds of the images holds of the members of any list with the same images.
pub All-of-map {ℓ κ μ} :
    {A : Type ℓ} {B : Type κ} (P : B → Type μ) (g : A → B) (xs ys : List A)
    → map g ys ≡ map g xs
    → All (λ a. P (g a)) xs
    → All (λ a. P (g a)) ys
All-of-map P g xs [] e h = tt
All-of-map P g [] (y ∷ ys) e h = cc
All-of-map P g (x ∷ xs) (y ∷ ys) e h = (subst P (cc) h.0, All-of-map P g xs ys (cc) h.1)

pub All-get_elem? {ℓ κ} :
    {A : Type ℓ} (P : A → Type κ) (xs : List A) (i : ℕ) (a : A)
    → get_elem? xs i ≡ some a
    → All P xs
    → P a
All-get_elem? P [] i a e f = cc
All-get_elem? P (x ∷ xs) zero a e f = subst P (some-injective _ _ e) f.0
All-get_elem? P (x ∷ xs) (suc i) a e f = All-get_elem? P xs i a e f.1

pub All-modify {ℓ κ} :
    {A : Type ℓ} (P : A → Type κ) (xs : List A) (i : ℕ) (a : A)
    → P a
    → All P xs
    → All P (modify xs i (λ _. a))
All-modify P [] i a p f = tt
All-modify P (x ∷ xs) zero a p f = (p, f.1)
All-modify P (x ∷ xs) (suc i) a p f = (f.0, All-modify P xs i a p f.1)

pub is_some-get_elem? {ℓ} :
    {A : Type ℓ} (xs : List A) (i : ℕ) → is_some (get_elem? xs i) ≡ ltb i (length xs)
is_some-get_elem? [] zero = refl
is_some-get_elem? [] (suc i) = ground arith
is_some-get_elem? (x ∷ xs) zero = ground arith
is_some-get_elem? (x ∷ xs) (suc i) = is_some-get_elem? xs i ∙ ground arith

-- What a list's elements are, with the fact that each is in it.
pub All-with_count {ℓ κ} :
    (P : ℕ → Type ℓ) (Q : ℕ → Type κ) (ks : List ℕ)
    → All P ks
    → ((n : ℕ) → P n → 0 < count n ks → Q n)
    → All Q ks
All-with_count P Q [] h f = tt
All-with_count P Q (k ∷ ks) h f =
    (f k h.0 (ground arith), All-with_count P Q ks h.1 (λ n p c. f n p (omega (arith, c))))
