-- ===== src/Base/Lists.antt =====
-- The array operations that the source uses, over the native numbers, and predicates on lists.
use Prim.Native.Nat.{ℕ, zero, suc, ◌≤◌, ◌<◌}
use mathlib.Core.Path.{◌≡◌, refl, ap, ◌∙◌}
use mathlib.Core.Logic.{◌⊎◌, ◌↔◌, inl, inr}
use mathlib.Core.Bool.{Bool, true, false, not, ◌&&◌, ◌||◌}
use mathlib.Core.List.{List, [], ◌∷◌, map, ◌++◌}
use mathlib.Core.Option.{Option, none, some}
use native.Mathlib.Omega.{arith}
use ki_ticket.Base.Tests.{◌==◌, leb, ==_iff, if◌then◌else◌, Bool-cases}

module _ {ℓ} {A : Type ℓ} where
  abbrev pub length : List A → ℕ
  length [] = 0
  length (x ∷ xs) = suc (length xs)

  abbrev pub is_empty : List A → Bool
  is_empty [] = true
  is_empty (x ∷ xs) = false

  -- `Array.prototype.find`: the first element that passes the test.
  abbrev pub find : (A → Bool) → List A → Option A
  find p [] = none
  find p (x ∷ xs) = if p x then some x else find p xs

  -- `Array.prototype.filter`.
  abbrev pub select : (A → Bool) → List A → List A
  select p [] = []
  select p (x ∷ xs) = let rest = select p xs in if p x then x ∷ rest else rest

  abbrev pub any : (A → Bool) → List A → Bool
  any p [] = false
  any p (x ∷ xs) = p x || any p xs

  abbrev pub all : (A → Bool) → List A → Bool
  all p [] = true
  all p (x ∷ xs) = p x && all p xs

  abbrev pub All {κ} : (A → Type κ) → List A → Type κ
  All P [] = Unit
  All P (x ∷ xs) = P x × All P xs

module _ {ℓ} {A : Type ℓ} where
  abbrev pub take : ℕ → List A → List A
  take zero xs = []
  take (suc n) [] = []
  take (suc n) (x ∷ xs) = x ∷ take n xs

module _ {A : Type 0} where
  abbrev pub In : A → List A → Type 0
  In a [] = ⊥
  In a (x ∷ xs) = (a ≡ x) ⊎ In a xs

  -- No element twice.
  abbrev pub Distinct : List A → Type 0
  Distinct [] = Unit
  Distinct (x ∷ xs) = (¬ In x xs) × Distinct xs

  pub In-select :
      (p : A → Bool) (a : A) (xs : List A) → In a (select p xs) ↔ (In a xs × (p a ≡ true))
  In-select p a [] = (λ h. elim h [ ], λ h. elim h.0 [ ])
  In-select p a (x ∷ xs) = ground (arith, In-select p a xs)

  pub find-In : (p : A → Bool) (xs : List A) (a : A) → find p xs ≡ some a → In a xs × (p a ≡ true)
  find-In p [] a h = cc
  find-In p (x ∷ xs) a h = ground (arith, find-In p xs a)

  pub find-none : (p : A → Bool) (xs : List A) (a : A) → find p xs ≡ none → In a xs → p a ≡ false
  find-none p [] a h m = elim m [ ]
  find-none p (x ∷ xs) a h m = ground (arith, find-none p xs a)

  pub all-In : (p : A → Bool) (xs : List A) (a : A) → all p xs ≡ true → In a xs → p a ≡ true
  all-In p [] a h m = elim m [ ]
  all-In p (x ∷ xs) a h m = ground (arith, all-In p xs a)

  pub all-false :
      (p : A → Bool) (xs : List A) → all p xs ≡ false → (a : A) × In a xs × (p a ≡ false)
  all-false p [] h = cc
  all-false p (x ∷ xs) h = elim (Bool-cases (p x)) [
    | inl e ↦ let rest = all-false p xs (rw e at h) in (rest.0, inr rest.1, rest.2)
    | inr e ↦ (x, inl refl, e)
  ]

module _ {A B : Type 0} where
  pub In-map : (f : A → B) (a : A) (xs : List A) → In a xs → In (f a) (map f xs)
  In-map f a [] m = elim m [ ]
  In-map f a (x ∷ xs) (inl e) = inl (ap f e)
  In-map f a (x ∷ xs) (inr m) = inr (In-map f a xs m)

  pub length-map : (f : A → B) (xs : List A) → length (map f xs) ≡ length xs
  length-map f [] = refl
  length-map f (x ∷ xs) = ap suc (length-map f xs)

  pub In-of_map :
      (f : A → B) (b : B) (xs : List A) → In b (map f xs) → (a : A) × In a xs × (b ≡ f a)
  In-of_map f b [] m = elim m [ ]
  In-of_map f b (x ∷ xs) (inl e) = (x, inl refl, e)
  In-of_map f b (x ∷ xs) (inr m) = let rest = In-of_map f b xs m in (rest.0, inr rest.1, rest.2)

abbrev pub has : ℕ → List ℕ → Bool
has x = any (λ y. x == y)

-- `[...new Set(xs)]`: the first occurrence of each element, in order.
abbrev pub unique : List ℕ → List ℕ
unique [] = []
unique (x ∷ xs) = x ∷ select (λ y. not (x == y)) (unique xs)

abbrev pub insert : ℕ → List ℕ → List ℕ
insert x [] = x ∷ []
insert x (y ∷ ys) = let rest = insert x ys in if leb x y then x ∷ y ∷ ys else y ∷ rest

-- `Array.prototype.sort` on identifiers.
abbrev pub sort : List ℕ → List ℕ
sort [] = []
sort (x ∷ xs) = insert x (sort xs)

has-select : (p : ℕ → Bool) (x : ℕ) (xs : List ℕ) → has x (select p xs) ≡ (p x && has x xs)
has-select p x [] = ground arith
has-select p x (y ∷ ys) = elim (Bool-cases (x == y)) [
  | inl e ↦ rw ((==_iff x y).0 e) (ground (arith, has-select p y ys))
  | inr e ↦ rw e (ground (arith, has-select p x ys))
]

pub has-unique : (x : ℕ) (xs : List ℕ) → has x (unique xs) ≡ has x xs
has-unique x [] = refl
has-unique x (y ∷ ys) =
    ground (arith, has-select (λ z. not (y == z)) x (unique ys), has-unique x ys)

has-insert : (x y : ℕ) (ys : List ℕ) → has x (insert y ys) ≡ (x == y || has x ys)
has-insert x y [] = refl
has-insert x y (z ∷ zs) = ground (arith, has-insert x y zs)

pub has-sort : (x : ℕ) (xs : List ℕ) → has x (sort xs) ≡ has x xs
has-sort x [] = refl
has-sort x (y ∷ ys) = ground (arith, has-insert x y (sort ys), has-sort x ys)

pub has-In : (x : ℕ) (xs : List ℕ) → has x xs ≡ true → In x xs
has-In x [] h = cc
has-In x (y ∷ ys) h = ground (arith, has-In x ys)

pub In-has : (x : ℕ) (xs : List ℕ) → In x xs → has x xs ≡ true
In-has x [] m = elim m [ ]
In-has x (y ∷ ys) m = ground (arith, In-has x ys)

length-insert : (x : ℕ) (ys : List ℕ) → length (insert x ys) ≡ suc (length ys)
length-insert x [] = refl
length-insert x (y ∷ ys) = ground (arith, length-insert x ys)

pub length-sort : (xs : List ℕ) → length (sort xs) ≡ length xs
length-sort [] = refl
length-sort (x ∷ xs) = omega (arith, length-insert x (sort xs), length-sort xs)

length-select : (p : ℕ → Bool) (xs : List ℕ) → length (select p xs) ≤ length xs
length-select p [] = omega arith
length-select p (x ∷ xs) = ground (arith, length-select p xs)

pub length-select-has :
    (x : ℕ) (xs : List ℕ) → has x xs ≡ true → length (select (λ y. not (x == y)) xs) < length xs
length-select-has x [] h = cc
length-select-has x (y ∷ ys) h =
    ground (arith, length-select-has x ys, length-select (λ z. not (x == z)) ys)

length-unique-le : (xs : List ℕ) → length (unique xs) ≤ length xs
length-unique-le [] = omega arith
length-unique-le (x ∷ xs) =
    omega (arith, length-select (λ y. not (x == y)) (unique xs), length-unique-le xs)

length-select_absent :
    (x : ℕ) (xs : List ℕ) → has x xs ≡ false → length (select (λ y. not (x == y)) xs) ≡ length xs
length-select_absent x [] h = refl
length-select_absent x (y ∷ ys) h = ground (arith, length-select_absent x ys)

pub has-not_In : (x : ℕ) (xs : List ℕ) → ¬ In x xs → has x xs ≡ false
has-not_In x xs d = elim (Bool-cases (has x xs)) [ inl h ↦ absurd (d (has-In x xs h)) | inr h ↦ h ]

-- A list is as long as its set exactly when nothing occurs twice.
pub length-unique_Distinct : (xs : List ℕ) → (length (unique xs) ≡ length xs) ↔ Distinct xs
length-unique_Distinct [] = (λ h. tt, λ h. refl)
length-unique_Distinct (x ∷ xs) = (
  λ h. (
    λ m. omega (
      arith,
      length-select-has x (unique xs) (has-unique x xs ∙ In-has x xs m),
      length-unique-le xs,
      h,
    ),
    (length-unique_Distinct xs).0
        (omega (arith, length-select (λ y. not (x == y)) (unique xs), length-unique-le xs, h)),
  ),
  λ d. omega (
    arith,
    length-select_absent x (unique xs) (has-unique x xs ∙ has-not_In x xs d.0),
    (length-unique_Distinct xs).1 d.1,
  ),
)

Distinct-select : (p : ℕ → Bool) (xs : List ℕ) → Distinct xs → Distinct (select p xs)
Distinct-select p [] d = tt
Distinct-select p (x ∷ xs) d = elim (Bool-cases (p x)) [
  | inl e ↦ rw e (λ m. d.0 ((In-select p x xs).0 m).0, Distinct-select p xs d.1)
  | inr e ↦ rw e (Distinct-select p xs d.1)
]

pub unique-Distinct : (xs : List ℕ) → Distinct (unique xs)
unique-Distinct [] = tt
unique-Distinct (x ∷ xs) = (
  λ m. ground (arith, (In-select (λ y. not (x == y)) x (unique xs)).0 m),
  Distinct-select (λ y. not (x == y)) (unique xs) (unique-Distinct xs),
)

insert-Distinct : (x : ℕ) (ys : List ℕ) → has x ys ≡ false → Distinct ys → Distinct (insert x ys)
insert-Distinct x [] h d = (λ m. m, tt)
insert-Distinct x (y ∷ ys) h d = elim (Bool-cases (leb x y)) [
  | inl e ↦ rw e (λ m. ground (arith, In-has x (y ∷ ys) m), d)
  | inr e ↦ rw e (
    λ m. ground (arith, has-insert y x ys, In-has y (insert x ys) m, has-not_In y ys d.0),
    insert-Distinct x ys (ground arith) d.1,
  )
]

pub sort-Distinct : (xs : List ℕ) → Distinct xs → Distinct (sort xs)
sort-Distinct [] d = tt
sort-Distinct (x ∷ xs) d =
    insert-Distinct x (sort xs) (has-sort x xs ∙ has-not_In x xs d.0) (sort-Distinct xs d.1)

pub In-snoc : {A : Type 0} (x y : A) (xs : List A) → In x (xs ++ y ∷ []) → In x xs ⊎ (x ≡ y)
In-snoc x y [] (inl e) = inr e
In-snoc x y [] (inr m) = absurd m
In-snoc x y (z ∷ xs) (inl e) = inl (inl e)
In-snoc x y (z ∷ xs) (inr m) = elim (In-snoc x y xs m) [ inl q ↦ inl (inr q) | inr q ↦ inr q ]
