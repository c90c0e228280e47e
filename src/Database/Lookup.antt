-- ===== src/Database/Lookup.antt =====
-- A row that is looked up by a test that only the rows of one id pass.
use ki_ticket.Base.{ℕ, ◌≡◌, sym, ap, ◌∙◌, Bool, true, some, inl, inr, Option-cases}
use ki_ticket.Database.Interface.{Entity, Repository}

pub find_by_key :
    {Row : Type 0} {e : Entity Row} (repo : Repository e) (t : repo.Table) (p : Row → Bool) (i : ℕ)
    (r : Row)
    → repo.get t i ≡ some r
    → p r ≡ true
    → ((s : Row) → p s ≡ true → e.key s ≡ i)
    → repo.find_one_by t p ≡ some r
find_by_key {Row} repo t p i r g h only = elim (Option-cases (repo.find_one_by t p)) [
  | inl n ↦ absurd (cc (repo.missing t p i r n g, h))
  | inr (s, f) ↦ let k = repo.found t p s f in f ∙ (sym k.0 ∙ (ap (repo.get t) (only s k.1) ∙ g))
]
