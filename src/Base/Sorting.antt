-- ===== src/Base/Sorting.antt =====
-- Sorting by any order, and the pages of a list.
use Prim.Native.Nat.{ℕ, zero, suc, ◌+◌, ◌*◌, ◌≤◌}
use mathlib.Core.Path.{◌≡◌, refl, sym, ap, ◌∙◌, subst}
use mathlib.Core.Logic.{◌⊎◌, ◌↔◌, inl, inr}
use mathlib.Core.Bool.{Bool, true, false}
use mathlib.Core.List.{List, [], ◌∷◌, ◌++◌}
use native.Mathlib.Omega.{arith}
use ki_ticket.Base.Tests.{if◌then◌else◌, Bool-cases}
use ki_ticket.Base.Lists.{All, In, take, length}

module _ {A : Type 0} where
  abbrev pub drop : ℕ → List A → List A
  drop zero xs = xs
  drop (suc n) [] = []
  drop (suc n) (x ∷ xs) = drop n xs

  pub take-drop : (n : ℕ) (xs : List A) → take n xs ++ drop n xs ≡ xs
  take-drop zero xs = refl
  take-drop (suc n) [] = refl
  take-drop (suc n) (x ∷ xs) = ap (λ l. x ∷ l) (take-drop n xs)

  drop-nil : (n : ℕ) → drop n [] ≡ []
  drop-nil zero = refl
  drop-nil (suc n) = refl

  pub drop-drop : (m n : ℕ) (xs : List A) → drop n (drop m xs) ≡ drop (m + n) xs
  drop-drop zero n xs = ap (λ k. drop k xs) (omega arith)
  drop-drop (suc m) n [] = drop-nil n ∙ sym (drop-nil (suc m + n))
  drop-drop (suc m) n (x ∷ xs) =
      let e : suc (m + n) ≡ suc m + n = omega arith in
      drop-drop m n xs ∙ ap (λ k. drop k (x ∷ xs)) e

  pub drop_all : (n : ℕ) (xs : List A) → length xs ≤ n → drop n xs ≡ []
  drop_all zero [] h = refl
  drop_all zero (x ∷ xs) h = absurd (omega arith)
  drop_all (suc n) [] h = refl
  drop_all (suc n) (x ∷ xs) h = drop_all n xs (omega arith)

  pub length-take-le : (n : ℕ) (xs : List A) → length (take n xs) ≤ n
  length-take-le zero xs = omega arith
  length-take-le (suc n) [] = omega arith
  length-take-le (suc n) (x ∷ xs) = omega (arith, length-take-le n xs)

  module _ (before : A → A → Bool) where
    abbrev pub insert_by : A → List A → List A
    insert_by x [] = x ∷ []
    insert_by x (y ∷ ys) =
        let later = insert_by x ys in if before x y then x ∷ y ∷ ys else y ∷ later

    abbrev pub sort_by : List A → List A
    sort_by [] = []
    sort_by (x ∷ xs) = insert_by x (sort_by xs)

    pub In-insert_by : (a x : A) (ys : List A) → In a (insert_by x ys) ↔ ((a ≡ x) ⊎ In a ys)
    In-insert_by a x [] = (λ m. m, λ m. m)
    In-insert_by a x (y ∷ ys) = ground (arith, In-insert_by a x ys)

    pub In-sort_by : (a : A) (xs : List A) → In a (sort_by xs) ↔ In a xs
    In-sort_by a [] = (λ m. m, λ m. m)
    In-sort_by a (x ∷ xs) = ground (arith, In-insert_by a x (sort_by xs), In-sort_by a xs)

    length-insert_by : (x : A) (ys : List A) → length (insert_by x ys) ≡ suc (length ys)
    length-insert_by x [] = refl
    length-insert_by x (y ∷ ys) = ground (arith, length-insert_by x ys)

    pub length-sort_by : (xs : List A) → length (sort_by xs) ≡ length xs
    length-sort_by [] = refl
    length-sort_by (x ∷ xs) = length-insert_by x (sort_by xs) ∙ ap suc (length-sort_by xs)

    -- No element stands after one that it comes before.
    abbrev pub Ordered : List A → Type 0
    Ordered [] = Unit
    Ordered (x ∷ xs) = All (λ y. before x y ≡ true) xs × Ordered xs

    module _ (total : (x y : A) → before x y ≡ false → before y x ≡ true)
        (transitive : (x y z : A) → before x y ≡ true → before y z ≡ true → before x z ≡ true) where
      All-before :
          (x y : A) (ys : List A)
          → before x y ≡ true
          → All (λ z. before y z ≡ true) ys
          → All (λ z. before x z ≡ true) ys
      All-before x y [] h a = tt
      All-before x y (z ∷ zs) h a = (transitive x y z h a.0, All-before x y zs h a.1)

      All-insert_by :
          (y x : A) (ys : List A)
          → before y x ≡ true
          → All (λ z. before y z ≡ true) ys
          → All (λ z. before y z ≡ true) (insert_by x ys)
      All-insert_by y x [] h a = (h, tt)
      All-insert_by y x (z ∷ zs) h a = elim (Bool-cases (before x z)) [
        | inl e ↦ rw e (h, a)
        | inr e ↦ rw e (a.0, All-insert_by y x zs h a.1)
      ]

      insert_by-Ordered : (x : A) (ys : List A) → Ordered ys → Ordered (insert_by x ys)
      insert_by-Ordered x [] o = (tt, tt)
      insert_by-Ordered x (y ∷ ys) o = elim (Bool-cases (before x y)) [
        | inl e ↦ rw e ((e, All-before x y ys e o.0), o)
        | inr e ↦ rw e (All-insert_by y x ys (total x y e) o.0, insert_by-Ordered x ys o.1)
      ]

      pub sort_by-Ordered : (xs : List A) → Ordered (sort_by xs)
      sort_by-Ordered [] = tt
      sort_by-Ordered (x ∷ xs) = insert_by-Ordered x (sort_by xs) (sort_by-Ordered xs)

  -- The k-th page of so many elements, from 0 on.
  abbrev pub page_at : (limit k : ℕ) → List A → List A
  page_at limit k xs = take limit (drop (k * limit) xs)

  -- The pages from the k-th on, one after the other.
  abbrev pub pages_from : (limit k more : ℕ) → List A → List A
  pages_from limit k zero xs = []
  pages_from limit k (suc more) xs = page_at limit k xs ++ pages_from limit (suc k) more xs

  pub pages_from_lem :
      (limit k more : ℕ) (xs : List A)
      → length xs ≤ (k + more) * limit
      → pages_from limit k more xs ≡ drop (k * limit) xs
  pages_from_lem limit k zero xs h =
      sym (drop_all (k * limit) xs (subst (λ n. length xs ≤ n * limit) (omega arith) h))
  pages_from_lem limit k (suc more) xs h =
      ap (λ l. page_at limit k xs ++ l)
        (pages_from_lem limit (suc k) more xs (subst (λ n. length xs ≤ n * limit) (omega arith) h)
          ∙ ap (λ n. drop n xs) (grind arith)
          ∙ sym (drop-drop (k * limit) limit xs))
      ∙ take-drop limit (drop (k * limit) xs)
