-- ===== src/Database/Batch.antt =====
-- `save` and `remove` of an array of entities: one row after another, and nothing is kept if one of
-- them violates a constraint.
use ki_ticket.Base.{Option, none, some, List, [], ◌∷◌}
use ki_ticket.Database.Interface.{Entity, Repository}

module _ {Row : Type 0} {e : Entity Row} (repo : Repository e) where
  unfoldable pub insert_all : List Row → repo.Table → Option repo.Table
  insert_all [] t = some t
  insert_all (r ∷ rows) t = elim (repo.insert t r) [ none ↦ none | some u ↦ insert_all rows u ]

  unfoldable pub save_all : List Row → repo.Table → Option repo.Table
  save_all [] t = some t
  save_all (r ∷ rows) t = elim (repo.save t r) [ none ↦ none | some u ↦ save_all rows u ]

  unfoldable pub remove_all : List Row → repo.Table → repo.Table
  remove_all [] t = t
  remove_all (r ∷ rows) t = remove_all rows (repo.remove t r)
