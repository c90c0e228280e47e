-- ===== src/Json.antt =====
-- The values of JSON, and the tests of JavaScript on texts that the source makes.
use Prim.Native.Char.{code}
use Prim.Native.String as Text
use ki_ticket.Base.{
  ℕ, String, Bool, true, ◌&&◌, ◌||◌, Option, none, some, List, [], ◌∷◌, ◌==◌, leb, str_eq,
  if◌then◌else◌,
}

-- Numbers are natural numbers here.
mutual
  pub data Json : Type 0 where
    null : Json
    boolean : Bool → Json
    numeral : ℕ → Json
    text : String → Json
    array : Items → Json
    object : Fields → Json

  pub data Items : Type 0 where
    nil : Items
    cons : Json → Items → Items

  pub data Fields : Type 0 where
    end : Fields
    field : String → Json → Fields → Fields

-- `value.name`; of a name that stands twice, `JSON.parse` keeps the last value.
abbrev pub property : String → Fields → Option Json
property name end = none
property name (field k v rest) = elim (property name rest) [
  | some w ↦ some w
  | none ↦ if str_eq k name then some v else none
]

-- The white space of `String.prototype.trim`.
abbrev pub is_space : ℕ → Bool
is_space c =
    leb 9 c && leb c 13
    || c == 32
    || c == 160
    || c == 0x1680
    || leb 0x2000 c && leb c 0x200a
    || c == 0x2028
    || c == 0x2029
    || c == 0x202f
    || c == 0x205f
    || c == 0x3000
    || c == 0xfeff

-- `!s.trim()`
abbrev pub is_blank : String → Bool
is_blank Text.[] = true
is_blank (Text.◌∷◌ c s) = is_space (code c) && is_blank s

-- `Array.prototype.join`
abbrev pub join : String → List String → String
join separator [] = ""
join separator (s ∷ []) = s
join separator (s ∷ (t ∷ rest)) = Text.◌++◌ s (Text.◌++◌ separator (join separator (t ∷ rest)))

abbrev trim_end : String → String
trim_end Text.[] = ""
trim_end (Text.◌∷◌ c s) =
    let rest = trim_end s in if str_eq rest "" && is_space (code c) then "" else Text.◌∷◌ c rest

abbrev trim_start : String → String
trim_start Text.[] = ""
trim_start (Text.◌∷◌ c s) =
    let rest = trim_start s in if is_space (code c) then rest else Text.◌∷◌ c s

-- `String.prototype.trim`
unfoldable pub trim : String → String
trim s = trim_end (trim_start s)
