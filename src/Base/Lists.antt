-- ===== src/Base/Lists.antt =====
-- Lists measured by native numbers, and the array methods that the source calls.
use Prim.Native.Nat.{ℕ, zero, suc, ◌+◌, ◌≤◌, ◌<◌, min}
use mathlib.Core.Path.{◌≡◌, refl, ap}
use mathlib.Core.Logic.{◌⊎◌, inl, inr}
use mathlib.Core.Bool.{Bool, true, false, ◌&&◌, ◌||◌}
use mathlib.Core.List.{List, [], ◌∷◌, ◌++◌, map}
use mathlib.Core.Option.{Option, none, some}
use native.Mathlib.Omega.{arith}
use wslpad.Base.Bools.{if◌then◌else◌, Bool-cases, ==_cases, if_elim}

module _ {ℓ} {A : Type ℓ} where
  abbrev pub length : List A → ℕ
  length [] = 0
  length (x ∷ xs) = suc (length xs)

  abbrev pub is_empty : List A → Bool
  is_empty [] = true
  is_empty (x ∷ xs) = false

  abbrev pub get_elem? : List A → ℕ → Option A
  get_elem? [] i = none
  get_elem? (x ∷ xs) zero = some x
  get_elem? (x ∷ xs) (suc i) = get_elem? xs i

  -- `slice(0, n)` and `slice(n)`.
  abbrev pub take : ℕ → List A → List A
  take zero xs = []
  take (suc n) [] = []
  take (suc n) (x ∷ xs) = x ∷ take n xs

  abbrev pub drop : ℕ → List A → List A
  drop zero xs = xs
  drop (suc n) [] = []
  drop (suc n) (x ∷ xs) = drop n xs

  -- `filter`, `find`, `some` and `every` with a Boolean test.
  abbrev pub select : (A → Bool) → List A → List A
  select p [] = []
  select p (x ∷ xs) = if p x then x ∷ select p xs else select p xs

  abbrev pub find : (A → Bool) → List A → Option A
  find p [] = none
  find p (x ∷ xs) = if p x then some x else find p xs

  abbrev pub any : (A → Bool) → List A → Bool
  any p [] = false
  any p (x ∷ xs) = p x || any p xs

  abbrev pub every : (A → Bool) → List A → Bool
  every p [] = true
  every p (x ∷ xs) = p x && every p xs

  abbrev pub head? : List A → Option A
  head? [] = none
  head? (x ∷ xs) = some x

  abbrev pub last? : List A → Option A
  last? [] = none
  last? (x ∷ []) = some x
  last? (x ∷ y ∷ xs) = last? (y ∷ xs)

  pub length-append : (xs ys : List A) → length (xs ++ ys) ≡ length xs + length ys
  length-append [] ys = omega arith
  length-append (x ∷ xs) ys = omega (arith, length-append xs ys)

  pub length-take : (n : ℕ) (xs : List A) → length (take n xs) ≡ min n (length xs)
  length-take zero xs = omega arith
  length-take (suc n) [] = omega arith
  length-take (suc n) (x ∷ xs) = omega (arith, length-take n xs)

  pub select-append :
      (p : A → Bool) (xs ys : List A) → select p (xs ++ ys) ≡ select p xs ++ select p ys
  select-append p [] ys = refl
  select-append p (x ∷ xs) ys = ground (arith, select-append p xs ys)

  pub any-append : (p : A → Bool) (xs ys : List A) → any p (xs ++ ys) ≡ (any p xs || any p ys)
  any-append p [] ys = refl
  any-append p (x ∷ xs) ys = ground (arith, any-append p xs ys)

  pub length-select : (p : A → Bool) (xs : List A) → length (select p xs) ≤ length xs
  length-select p [] = omega arith
  length-select p (x ∷ xs) = ground (arith, length-select p xs)

  pub find-holds : (p : A → Bool) (xs : List A) {x : A} → find p xs ≡ some x → p x ≡ true
  find-holds p [] h = ground arith
  find-holds p (y ∷ xs) h = elim (Bool-cases (p y)) [
    | inl e ↦ ground arith
    | inr e ↦ find-holds p xs (ground arith)
  ]

module _ {ℓ κ} {A : Type ℓ} (P : A → Type κ) where
  -- A predicate by recursion, which computes to a tuple.
  abbrev pub All : List A → Type κ
  All [] = Unit
  All (x ∷ xs) = P x × All xs

  pub All-append : (xs ys : List A) → All xs → All ys → All (xs ++ ys)
  All-append [] ys _ k = k
  All-append (x ∷ xs) ys (p, h) k = (p, All-append xs ys h k)

  pub All-select : (p : A → Bool) (xs : List A) → All xs → All (select p xs)
  All-select p [] h = tt
  All-select p (x ∷ xs) (h, k) =
      if_elim All (p x) (λ _. (h, All-select p xs k)) (λ _. All-select p xs k)

module _ {A : Type 0} where
  -- `x` is one of `xs`.
  abbrev pub In : A → List A → Type 0
  In x [] = ⊥
  In x (y ∷ ys) = (x ≡ y) ⊎ In x ys

  pub In-append : (x : A) (xs ys : List A) → In x xs ⊎ In x ys → In x (xs ++ ys)
  In-append x [] ys (inr h) = h
  In-append x [] ys (inl h) = elim h [ ]
  In-append x (y ∷ xs) ys (inl (inl e)) = inl e
  In-append x (y ∷ xs) ys (inl (inr h)) = inr (In-append x xs ys (inl h))
  In-append x (y ∷ xs) ys (inr h) = inr (In-append x xs ys (inr h))

  pub find-In : (p : A → Bool) (xs : List A) {x : A} → find p xs ≡ some x → In x xs
  find-In p [] h = cc
  find-In p (y ∷ xs) h = elim (Bool-cases (p y)) [
    | inl e ↦ inl (ground arith)
    | inr e ↦ inr (find-In p xs (ground arith))
  ]

  pub All-In : (P : A → Type 0) (xs : List A) {x : A} → All P xs → In x xs → P x
  All-In P (y ∷ xs) h (inl e) = rw e h.0
  All-In P (y ∷ xs) h (inr m) = All-In P xs h.1 m
  All-In P [] h m = elim m [ ]

-- The numbers below a bound, from the greatest down.
abbrev pub below : ℕ → List ℕ
below zero = []
below (suc n) = n ∷ below n

pub below-In : (n c : ℕ) → c < n → In c (below n)
below-In zero c h = elim h [ ]
below-In (suc n) c h = elim (==_cases c n) [
  | inl e ↦ inl e
  | inr differs ↦ inr (below-In n c (omega arith))
]

pub every-In :
    {A : Type 0} (p : A → Bool) (xs : List A) {x : A} → every p xs ≡ true → In x xs → p x ≡ true
every-In p [] h m = elim m [ ]
every-In p (y ∷ xs) h (inl e) = ground (arith, ap p e)
every-In p (y ∷ xs) h (inr m) = every-In p xs (ground arith) m

abbrev keep_some {ℓ} : {A : Type ℓ} → Option A → List A → List A
keep_some none rest = rest
keep_some (some y) rest = y ∷ rest

-- The results of a function that may have none, in order.
abbrev pub filter_map {ℓ κ} : {A : Type ℓ} {B : Type κ} → (A → Option B) → List A → List B
filter_map f [] = []
filter_map f (x ∷ xs) = keep_some (f x) (filter_map f xs)

module _ {ℓ κ τ} {A : Type ℓ} {B : Type κ} (P : B → Type τ) (f : A → Option B) where
  keep_some-All :
      (o : Option B) (rest : List B)
      → ((y : B) → o ≡ some y → P y)
      → All P rest
      → All P (keep_some o rest)
  keep_some-All none rest h k = k
  keep_some-All (some y) rest h k = (h y refl, k)

  -- What holds of every result holds of the list of them.
  pub filter_map-All :
      ((x : A) (y : B) → f x ≡ some y → P y) → (xs : List A) → All P (filter_map f xs)
  filter_map-All h [] = tt
  filter_map-All h (x ∷ xs) = keep_some-All (f x) (filter_map f xs) (h x) (filter_map-All h xs)

-- What holds of every image.
pub All-map {ℓ κ τ} :
    {A : Type ℓ} {B : Type κ} (P : B → Type τ) (f : A → B) (xs : List A)
    → All (λ x. P (f x)) xs
    → All P (map f xs)
All-map P f [] h = tt
All-map P f (x ∷ xs) (h, k) = (h, All-map P f xs k)
