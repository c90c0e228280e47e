-- ===== src/Database/Saved.antt =====
-- Saving any rows with distinct keys: each is stored, and no other row changes.
use ki_ticket.Base.{ℕ, ◌≡◌, ◌∙◌, some, List, [], ◌∷◌, map, arith, In, Distinct, inl, inr, ==_iff}
use ki_ticket.Database.Interface.{Entity, Repository}
use ki_ticket.Database.Batch.{save_all}
use ki_ticket.Database.BatchLaws.{save_all_step}

module _ {Row : Type 0} {e : Entity Row} (repo : Repository e) where
  pub save_all_other :
      (rows : List Row) (t t' : repo.Table) (i : ℕ)
      → save_all repo rows t ≡ some t'
      → ¬ In i (map e.key rows)
      → repo.get t' i ≡ repo.get t i
  save_all_other [] t t' i h out = unfold save_all in ground arith
  save_all_other (r ∷ rows) t t' i h out =
      let (u, q, rest) = save_all_step repo r rows t t' h in
      save_all_other rows u t' i rest (λ m. out (inr m))
      ∙ ground
          (arith, repo.get-save t r u i q, ==_iff i (e.key r), λ (k : i ≡ e.key r). out (inl k))

  pub save_all_new :
      (rows : List Row) (t t' : repo.Table) (r : Row)
      → save_all repo rows t ≡ some t'
      → Distinct (map e.key rows)
      → In r rows
      → repo.get t' (e.key r) ≡ some r
  save_all_new [] t t' r h d m = absurd m
  save_all_new (s ∷ rows) t t' r h d (inl same) =
      let (u, q, rest) = save_all_step repo s rows t t' h in
      rw same (
        save_all_other rows u t' (e.key s) rest d.0
        ∙ ground (arith, repo.get-save t s u (e.key s) q))
  save_all_new (s ∷ rows) t t' r h d (inr m) =
      let (u, q, rest) = save_all_step repo s rows t t' h in save_all_new rows u t' r rest d.1 m
