-- ===== src/Base/Pigeonhole.antt =====
-- Counting: the pigeonhole principle for lists of numbers.
use Prim.Native.Nat.{ℕ, ◌≤◌}
use mathlib.Core.Path.{refl, sym}
use mathlib.Core.Logic.{inl, inr}
use mathlib.Core.Bool.{not}
use mathlib.Core.List.{List, [], ◌∷◌}
use native.Mathlib.Omega.{arith}
use ki_ticket.Base.Tests.{◌==◌, ==_iff, Bool-cases}
use ki_ticket.Base.Lists.{In, Distinct, length, select, In-select, In-has, length-select-has}

-- A list without repetitions that lies in another that is not longer contains it.
pub pigeonhole :
    (xs ys : List ℕ) (y : ℕ)
    → Distinct xs
    → ((x : ℕ) → In x xs → In x ys)
    → length ys ≤ length xs
    → In y ys
    → In y xs
pigeonhole [] [] y d inside short m = m
pigeonhole [] (z ∷ zs) y d inside short m = absurd (ground arith)
pigeonhole (x ∷ xs) ys y d inside short m = elim (Bool-cases (x == y)) [
  | inl same ↦ inl (sym ((==_iff x y).0 same))
  | inr differ ↦ inr (
      pigeonhole xs (select (λ z. not (x == z)) ys) y d.1
        (λ z k.
          (In-select (λ z. not (x == z)) z ys).1 (inside z (inr k), ground (arith, ==_iff x z)))
        (omega (arith, length-select-has x ys (In-has x ys (inside x (inl refl)))))
        ((In-select (λ z. not (x == z)) y ys).1 (m, ground arith)))
]
