-- ===== src/Base/Lists.antt =====
-- Lists: lengths and slices over the native numbers, membership tests on texts, and folds.
use Prim.Native.Nat.{ℕ, zero, suc, ◌+◌, ◌-◌, ◌≤◌}
use Prim.Native.String.{String}
use mathlib.Core.Path.{◌≡◌, refl, ap, ◌∙◌}
use mathlib.Core.Logic.{◌⊎◌, inl, inr}
use mathlib.Core.Bool.{Bool, true, false, ◌&&◌, ◌||◌, not}
use mathlib.Core.Option.{Option, none, some}
use text.Mathlib.TextEquality.{eq_iff}
use mathlib.Core.List.{List, [], ◌∷◌, ◌++◌}
use native.Mathlib.Omega.{arith}
use native.Mathlib.Numerals.{unary_clauses}
use text.Mathlib.Text.{◌==◌ as str_eq}

module _ {ℓ} {A : Type ℓ} where
  unfoldable pub length : List A → ℕ
  length [] = 0
  length (x ∷ xs) = suc (length xs)

  unfoldable pub take : ℕ → List A → List A
  take zero xs = []
  take (suc n) [] = []
  take (suc n) (x ∷ xs) = x ∷ take n xs

  unfoldable pub drop : ℕ → List A → List A
  drop zero xs = xs
  drop (suc n) [] = []
  drop (suc n) (x ∷ xs) = drop n xs

  unfoldable pub reverse : List A → List A
  reverse [] = []
  reverse (x ∷ xs) = reverse xs ++ x ∷ []

  unfoldable pub filter : (A → Bool) → List A → List A
  filter p [] = []
  filter p (x ∷ xs) = let rest = filter p xs in elim (p x) [ true ↦ x ∷ rest | false ↦ rest ]

  unfoldable pub foldl {ℓ₂} : {B : Type ℓ₂} → (B → A → B) → B → List A → B
  foldl f b [] = b
  foldl f b (x ∷ xs) = foldl f (f b x) xs

  pub length-append : (xs ys : List A) → length (xs ++ ys) ≡ length xs + length ys
  unfolding length
  length-append [] ys = omega arith
  length-append (x ∷ xs) ys = ground (arith, length-append xs ys)

  pub length-drop : (n : ℕ) (xs : List A) → length (drop n xs) ≡ length xs - n
  unfolding length drop
  length-drop zero xs = ground arith
  length-drop (suc n) [] = ground arith
  length-drop (suc n) (x ∷ xs) = ground (arith, length-drop n xs)

  pub drop-drop : (m n : ℕ) (xs : List A) → drop m (drop n xs) ≡ drop (n + m) xs
  unfolding drop
  drop-drop m zero xs = ap (λ k. drop k xs) (omega arith)
  drop-drop zero (suc n) [] = simp unary_clauses refl
  drop-drop (suc m) (suc n) [] = simp unary_clauses refl
  drop-drop m (suc n) (x ∷ xs) =
      let e : suc (n + m) ≡ suc n + m = omega arith in
      drop-drop m n xs ∙ ap (λ k. drop k (x ∷ xs)) e

  pub drop-append : (n : ℕ) (xs ys : List A) → n ≤ length xs → drop n (xs ++ ys) ≡ drop n xs ++ ys
  unfolding drop length
  drop-append zero xs ys h = refl
  drop-append (suc n) [] ys h = absurd (omega arith)
  drop-append (suc n) (x ∷ xs) ys h = drop-append n xs ys (omega arith)

  pub take-split : (m n : ℕ) (xs : List A) → take m xs ++ take n (drop m xs) ≡ take (m + n) xs
  unfolding take drop
  take-split zero n xs = ap (λ k. take k xs) (omega arith)
  take-split (suc m) zero [] = simp unary_clauses refl
  take-split (suc m) (suc n) [] = simp unary_clauses refl
  take-split (suc m) n (x ∷ xs) =
      let e : suc (m + n) ≡ suc m + n = omega arith in
      ap (λ l. x ∷ l) (take-split m n xs) ∙ ap (λ k. take k (x ∷ xs)) e

-- `s in texts`
unfoldable pub contains : String → List String → Bool
contains s [] = false
contains s (t ∷ ts) = str_eq t s || contains s ts

pub contains-append :
    (s : String) (xs : List String) (t : String)
    → contains s (xs ++ t ∷ []) ≡ (contains s xs || str_eq t s)
unfolding contains
contains-append s [] t = ground arith
contains-append s (x ∷ xs) t = ground (arith, contains-append s xs t)

-- No text twice.
unfoldable pub is_unique : List String → Bool
is_unique [] = true
is_unique (s ∷ ss) = not (contains s ss) && is_unique ss

pub is_unique-append :
    (xs : List String) (t : String)
    → contains t xs ≡ false
    → is_unique (xs ++ t ∷ []) ≡ is_unique xs
unfolding is_unique contains
is_unique-append [] t h = ground arith
is_unique-append (x ∷ xs) t h =
    ground (arith, eq_iff x t, eq_iff t x, contains-append x xs t, is_unique-append xs t)

-- The first value that the function gives for an entry.
unfoldable pub first_some {ℓ κ} : {A : Type ℓ} {B : Type κ} → (A → Option B) → List A → Option B
first_some f [] = none
first_some f (x ∷ xs) = let rest = first_some f xs in elim (f x) [ some b ↦ some b | none ↦ rest ]

-- `(xs[:i], xs[i:])` for i from n down to 1.
unfoldable pub splits_from {ℓ} : {A : Type ℓ} → ℕ → List A → List (List A × List A)
splits_from zero xs = []
splits_from (suc n) xs = (take (suc n) xs, drop (suc n) xs) ∷ splits_from n xs

unfoldable pub splits {ℓ} : {A : Type ℓ} → List A → List (List A × List A)
unfolding splits_from
splits xs = splits_from (length xs) xs

-- Every entry has the property; and a value, when there is one.
abbrev pub All {ℓ κ} : {A : Type ℓ} → (A → Type κ) → List A → Type κ
All P [] = Unit
All P (x ∷ xs) = P x × All P xs

abbrev pub IfSome {ℓ κ} : {A : Type ℓ} → (A → Type κ) → Option A → Type κ
IfSome P none = Unit
IfSome P (some x) = P x

pub All-append {ℓ κ} :
    {A : Type ℓ} (P : A → Type κ) (x : A) (xs : List A) → All P xs → P x → All P (xs ++ x ∷ [])
All-append P x [] h p = (p, tt)
All-append P x (y ∷ ys) h p = (h.0, All-append P x ys h.1 p)

-- What the function makes of an entry, `first_some` makes of a list.
some_or-IfSome {ℓ κ} :
    {B : Type ℓ} (P : B → Type κ) (o rest : Option B)
    → IfSome P o
    → IfSome P rest
    → IfSome P (elim o [ some b ↦ some b | none ↦ rest ])
some_or-IfSome P none rest p q = q
some_or-IfSome P (some b) rest p q = p

pub first_some-IfSome {ℓ κ μ} :
    {A : Type ℓ} {B : Type κ} (f : A → Option B) (P : B → Type μ)
    → ((x : A) → IfSome P (f x))
    → (xs : List A) → IfSome P (first_some f xs)
unfolding first_some
first_some-IfSome f P each [] = tt
first_some-IfSome f P each (x ∷ xs) =
    some_or-IfSome P (f x) (first_some f xs) (each x) (first_some-IfSome f P each xs)

pub List-cases {ℓ} :
    {A : Type ℓ} (xs : List A) → (xs ≡ []) ⊎ ((x : A) × (rest : List A) × (xs ≡ x ∷ rest))
List-cases [] = inl refl
List-cases (x ∷ rest) = inr (x, rest, refl)
