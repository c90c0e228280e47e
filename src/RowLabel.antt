-- ===== src/RowLabel.antt =====
-- `rowLabel` of backend/src/catalog.controller.ts: the label of a row, "A" to "Z", "AA" and so on.
pub mod Reading
use Prim.Native.String.{String, ◌∷◌}
use Prim.Native.Char.{Char, char, IsScalar}
use Prim.Native.Nat.{Ordering, compare}
use ki_ticket.Base.{ℕ, zero, suc, ◌+◌, ◌-◌, ◌/◌, ◌%◌, ◌<◌, ◌≡◌, arith, ◌==◌, if◌then◌else◌}

less : (n : ℕ) → n < 55296 → compare n 55296 ≡ Ordering.lt
less n h = ground arith

pub below_IsScalar : (n : ℕ) → n < 55296 → IsScalar n
below_IsScalar n h = rw (less n h) tt

-- `String.fromCharCode(65 + (n % 26))`
unfoldable pub letter : ℕ → Char
letter n = char (65 + n % 26) (below_IsScalar (65 + n % 26) (omega arith))

-- The loop of `rowLabel`.
unfoldable pub label_from : ℕ → ℕ → String → String
label_from zero value label = label
label_from (suc fuel) value label =
    let rest = label_from fuel ((value - 1) / 26) (letter (value - 1) ∷ label) in
    if value == 0 then label else rest

-- It goes round at most `index + 1` times.
unfoldable pub row_label : ℕ → String
row_label index = label_from (suc index) (suc index) ""
