-- ===== src/Database/BatchLaws.antt =====
-- What the operations on arrays do to the rows of a table, where the arrays come from a query.
use mathlib.Core.Option
use ki_ticket.Base.{
  ℕ, ◌≡◌, ◌⊎◌, refl, ap₂, subst, ◌∙◌, Bool, Option, none, some, List, [], ◌∷◌, map, arith, find,
  find-In, find-none, In, Distinct, ◌==◌, ==_iff, if◌then◌else◌, inl, inr, Bool-cases, Option-cases,
}
use ki_ticket.Database.Interface.{Entity, Repository}
use ki_ticket.Database.Batch.{insert_all, save_all, remove_all}

module _ {Row : Type 0} where
  -- The row, if it passes or fails a test.
  abbrev pub only_if : (Row → Bool) → Option Row → Option Row
  only_if p none = none
  only_if p (some r) = if p r then some r else none

  abbrev pub unless : (Row → Bool) → Option Row → Option Row
  unless p none = none
  unless p (some r) = if p r then none else some r

  abbrev pub update_if : (Row → Bool) → (Row → Row) → Option Row → Option Row
  update_if p f none = none
  update_if p f (some r) = if p r then some (f r) else some r

  abbrev or_old : Option Row → Option Row → Option Row
  or_old none old = old
  or_old (some r) old = some r

  abbrev or_gone : Option Row → Option Row → Option Row
  or_gone none old = old
  or_gone (some r) old = none

  update_cases :
      (p : Row → Bool) (f : Row → Row) (o : Option Row)
      → or_old (Option.map f (only_if p o)) o ≡ update_if p f o
  update_cases p f none = refl
  update_cases p f (some r) = ground arith

module _ {Row : Type 0} {e : Entity Row} (repo : Repository e) where
  abbrev with_key : ℕ → List Row → Option Row
  with_key i = find (λ r. i == e.key r)

  find_absent : (rows : List Row) (i : ℕ) → (¬ In i (map e.key rows)) → with_key i rows ≡ none
  find_absent [] i d = refl
  find_absent (r ∷ rows) i d = elim (Bool-cases (i == e.key r)) [
    | inl h ↦ absurd (d (inl ((==_iff i (e.key r)).0 h)))
    | inr h ↦ rw h (find_absent rows i (λ m. d (inr m)))
  ]

  -- The row of a query with a given key is the table's row, if that passes the query's test.
  find_query :
      (p : Row → Bool) (t : repo.Table) (i : ℕ)
      → with_key i (repo.find_by t p) ≡ only_if p (repo.get t i)
  find_query p t i = elim (Option-cases (with_key i (repo.find_by t p))) [
    | inl h ↦ rw h (unlisted h (repo.get t i) refl)
    | inr (r, h) ↦
        let m = find-In (λ s. i == e.key s) (repo.find_by t p) r h in
        let l = repo.listed t p r m.0 in rw (h, (==_iff i (e.key r)).0 m.1, l.0) (rw l.1 refl)
  ]
    where
      unlisted :
          with_key i (repo.find_by t p) ≡ none
          → (o : Option Row) → repo.get t i ≡ o
          → none ≡ only_if p o
      unlisted h none g = refl
      unlisted h (some s) g = elim (Bool-cases (p s)) [
        | inl q ↦ ground (
          arith,
          repo.key-get t i s g,
          find-none (λ r. i == e.key r) (repo.find_by t p) s h (repo.complete t p i s g q),
        )
        | inr q ↦ rw q refl
      ]

  get-remove_all :
      (rows : List Row) (t : repo.Table) (i : ℕ)
      → repo.get (remove_all repo rows t) i ≡ or_gone (with_key i rows) (repo.get t i)
  unfolding remove_all
  get-remove_all [] t i = refl
  get-remove_all (r ∷ rows) t i =
      ground (arith, get-remove_all rows (repo.remove t r) i, repo.get-remove t r i)

  -- Removing the rows that a query lists leaves exactly the others.
  pub get-remove_found :
      (p : Row → Bool) (t : repo.Table) (i : ℕ)
      → repo.get (remove_all repo (repo.find_by t p) t) i ≡ unless p (repo.get t i)
  get-remove_found p t i = ground (arith, get-remove_all (repo.find_by t p) t i, find_query p t i)

  abbrev pub SaveAll : Row → List Row → repo.Table → repo.Table → Type 0
  SaveAll r rows t t' =
      (u : repo.Table) × (repo.save t r ≡ some u) × (save_all repo rows u ≡ some t')

  pub save_all_step :
      (r : Row) (rows : List Row) (t t' : repo.Table)
      → save_all repo (r ∷ rows) t ≡ some t'
      → SaveAll r rows t t'
  unfolding save_all
  save_all_step r rows t t' h = elim (Option-cases (repo.save t r)) [
    | inl q ↦ absurd (ground arith)
    | inr (u, q) ↦ (u, q, ground arith)
  ]

  get-save_all :
      (rows : List Row) (t t' : repo.Table) (i : ℕ)
      → Distinct (map e.key rows)
      → save_all repo rows t ≡ some t'
      → repo.get t' i ≡ or_old (with_key i rows) (repo.get t i)
  get-save_all [] t t' i d h = unfold save_all in ground arith
  get-save_all (r ∷ rows) t t' i d h =
      let (u, q, rest) = save_all_step r rows t t' h in
      get-save_all rows u t' i d.1 rest ∙ rw (repo.get-save t r u i q) (over i)
    where
      over :
          (i : ℕ)
          → or_old (with_key i rows) (if i == e.key r then some r else repo.get t i)
            ≡ or_old (with_key i (r ∷ rows)) (repo.get t i)
      over i = elim (Bool-cases (i == e.key r)) [
        | inl h ↦
            rw
              (
                h,
                find_absent rows i
                    (λ m. d.0 (subst (λ j. In j (map e.key rows)) ((==_iff i (e.key r)).0 h) m)),
              )
              refl
        | inr h ↦ rw h refl
      ]

  module _ (f : Row → Row) (keeps : (r : Row) → e.key (f r) ≡ e.key r) where
    keys_map : (rows : List Row) → map e.key (map f rows) ≡ map e.key rows
    keys_map [] = refl
    keys_map (r ∷ rows) = ap₂ ◌∷◌ (keeps r) (keys_map rows)

    find_map : (rows : List Row) (i : ℕ) → with_key i (map f rows) ≡ Option.map f (with_key i rows)
    find_map [] i = refl
    find_map (r ∷ rows) i = rw (keeps r) (ground (arith, find_map rows i))

    -- Saving the rows that a query lists, changed outside their keys, changes exactly those.
    pub get-save_found :
        (p : Row → Bool) (t t' : repo.Table) (i : ℕ)
        → save_all repo (map f (repo.find_by t p)) t ≡ some t'
        → repo.get t' i ≡ update_if p f (repo.get t i)
    get-save_found p t t' i h =
        rw
          (
            get-save_all (map f (repo.find_by t p)) t t' i
                (rw (keys_map (repo.find_by t p)) (repo.distinct t p)) h,
            find_map (repo.find_by t p) i,
            find_query p t i,
          )
          (update_cases p f (repo.get t i))

  insert_all_step :
      (r : Row) (rows : List Row) (t t' : repo.Table)
      → insert_all repo (r ∷ rows) t ≡ some t'
      → (u : repo.Table) × (repo.insert t r ≡ some u) × (insert_all repo rows u ≡ some t')
  unfolding insert_all
  insert_all_step r rows t t' h = elim (Option-cases (repo.insert t r)) [
    | inl q ↦ absurd (ground arith)
    | inr (u, q) ↦ (u, q, ground arith)
  ]

  -- An insertion of new rows keeps the old rows,
  pub get-insert_all_old :
      (rows : List Row) (t t' : repo.Table) (i : ℕ) (s : Row)
      → insert_all repo rows t ≡ some t'
      → repo.get t i ≡ some s
      → repo.get t' i ≡ some s
  get-insert_all_old [] t t' i s h g = unfold insert_all in ground arith
  get-insert_all_old (r ∷ rows) t t' i s h g =
      let (u, q, rest) = insert_all_step r rows t t' h in
      get-insert_all_old rows u t' i s rest
        (repo.get-insert t r u i q ∙ ground (arith, repo.insert_fresh t r u q))

  -- holds each new row under its key,
  pub get-insert_all_new :
      (rows : List Row) (t t' : repo.Table) (r : Row)
      → insert_all repo rows t ≡ some t'
      → In r rows
      → repo.get t' (e.key r) ≡ some r
  get-insert_all_new [] t t' r h m = elim m [ ]
  get-insert_all_new (s ∷ rows) t t' r h (inl m) =
      let (u, q, rest) = insert_all_step s rows t t' h in
      get-insert_all_old rows u t' (e.key r) r rest
        (rw m (repo.get-insert t s u (e.key s) q ∙ ground arith))
  get-insert_all_new (s ∷ rows) t t' r h (inr m) =
      let (u, q, rest) = insert_all_step s rows t t' h in get-insert_all_new rows u t' r rest m

  -- and holds nothing else.
  pub insert_all_cases :
      (rows : List Row) (t t' : repo.Table) (i : ℕ) (s : Row)
      → insert_all repo rows t ≡ some t'
      → repo.get t' i ≡ some s
      → (repo.get t i ≡ some s) ⊎ In s rows
  insert_all_cases [] t t' i s h g = inl (unfold insert_all in ground arith)
  insert_all_cases (r ∷ rows) t t' i s h g =
      let (u, q, rest) = insert_all_step r rows t t' h in
      ground (arith, insert_all_cases rows u t' i s rest g, repo.get-insert t r u i q)
