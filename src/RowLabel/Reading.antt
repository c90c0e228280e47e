-- ===== src/RowLabel/Reading.antt =====
-- The labels of `rowLabel` of backend/src/catalog.controller.ts name rows without ambiguity: a reading
-- of labels in the bijective base 26 gives the row back.
use Prim.Native.String.{String, [], ◌∷◌}
use Prim.Native.Char.{code}
use ki_ticket.Base.{
  ℕ, zero, suc, ◌+◌, ◌-◌, ◌*◌, ◌/◌, ◌<◌, ◌≤◌, ◌≡◌, refl, sym, ap, ◌∙◌, arith, inl, inr, Bool-cases,
  ==_iff, ◌==◌,
}
use ki_ticket.RowLabel.{letter, label_from, row_label}

-- The number that a label stands for, read from the left.
pub number_from : ℕ → String → ℕ
number_from sum [] = sum
number_from sum (c ∷ rest) = number_from (sum * 26 + (code c - 64)) rest

letter_digit :
    (value : ℕ) → 0 < value → (value - 1) / 26 * 26 + (code (letter (value - 1)) - 64) ≡ value
unfolding letter
letter_digit value h = omega arith

quotient_smaller : (value fuel : ℕ) → 0 < value → value ≤ suc fuel → (value - 1) / 26 ≤ fuel
quotient_smaller value fuel p h = omega arith

-- The loop with enough rounds writes its value in front of the label.
number-label_from :
    (fuel value : ℕ) (label : String)
    → value ≤ fuel
    → number_from 0 (label_from fuel value label) ≡ number_from value label
unfolding label_from number_from
number-label_from zero value label h =
    rw (let none_left : value ≡ 0 = omega arith in none_left) refl
number-label_from (suc fuel) value label h = elim (Bool-cases (value == 0)) [
  | inl z ↦ rw z (ap (λ (v : ℕ). number_from v label) (sym ((==_iff value 0).0 z)))
  | inr p ↦ rw p (
      number-label_from fuel ((value - 1) / 26) (letter (value - 1) ∷ label)
        (quotient_smaller value fuel (ground arith) h)
      ∙ ap (λ (v : ℕ). number_from v label) (letter_digit value (ground arith)))
]

-- Reading the label of a row in the bijective base 26 gives one more than the row's index.
pub number-row_label : (index : ℕ) → number_from 0 (row_label index) ≡ suc index
unfolding row_label number_from
number-row_label index = number-label_from (suc index) (suc index) [] (omega arith)

-- Different rows have different labels.
pub row_label_injective : (i j : ℕ) → row_label i ≡ row_label j → i ≡ j
row_label_injective i j h =
    let e : suc i ≡ suc j =
      sym (number-row_label i) ∙ (ap (number_from 0) h ∙ number-row_label j) in
    omega arith
