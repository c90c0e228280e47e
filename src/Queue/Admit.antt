-- ===== src/Queue/Admit.antt =====
-- `admit` of backend/src/waiting-room.controller.ts: the entries after a run.
use ki_ticket.Base.{
  ℕ, suc, ◌≡◌, ◌+◌, ◌*◌, ◌≤◌, true, ==_iff, length-take-le, refl, ap, some, List, [], ◌∷◌, map,
  length, arith, In, Distinct, inl, inr, Option-cases,
}
use ki_ticket.Outcome.{ok}
use ki_ticket.Database.{save_all, save_all_other, save_all_new}
use ki_ticket.Entities.{WaitingRoomEntry, WaitingRoomState, is_queued}
use ki_ticket.World.{Repositories, Db}
use ki_ticket.Queue.{
  Response, response, TokenDraw, by_position, next_in_line, queued_for, admit, admit_all,
  admit_entry,
}
use ki_ticket.Queue.Line.{ids, Distinct-by_position, Distinct-take, In-by_position, In-take}

ids-admit_all :
    (draws : ℕ → TokenDraw) (n : ℕ) (es : List WaitingRoomEntry)
    → ids (admit_all draws n es) ≡ ids es
ids-admit_all draws n [] = refl
ids-admit_all draws n (e ∷ rest) =
    ap (λ (xs : List ℕ). e.id ∷ xs) (ids-admit_all draws (suc n) rest)

-- An entry that is let in under a draw of a token.
pub record LetIn (d : TokenDraw) (before after : WaitingRoomEntry) : Type 0 where
  pub state : after.state ≡ WaitingRoomState.admitted
  pub token : after.admission_token ≡ some d.token
  pub expiry : after.token_expires_at ≡ some (d.at + d.ttl_seconds * 1000)
  pub kept :
      (after.id ≡ before.id)
      × (after.event_id ≡ before.event_id)
      × (after.user_id ≡ before.user_id)
      × (after.position ≡ before.position)
      × (after.created_at ≡ before.created_at)

-- A response tells an entry.
pub record Tells (e : WaitingRoomEntry) (r : Response) : Type 0 where
  pub which : (r.id ≡ e.id) × (r.event_id ≡ e.event_id) × (r.position ≡ e.position)
  pub admission :
      (r.state ≡ e.state)
      × (r.admission_token ≡ e.admission_token)
      × (r.token_expires_at ≡ e.token_expires_at)

queued_of_test : (s : WaitingRoomState) → is_queued s ≡ true → s ≡ WaitingRoomState.queued
queued_of_test s h = ground arith

module _ (D : Repositories) (draws : ℕ → TokenDraw) (event_id count : ℕ) (db : Db D) where
  abbrev pub line : List WaitingRoomEntry
  line = next_in_line D event_id count db

  -- Entry by entry, with the n-th token, the row that is stored and the response.
  abbrev pub AllLetIn : Db D → ℕ → List WaitingRoomEntry → List Response → Type 0
  AllLetIn db' n [] [] = Unit {0}
  AllLetIn db' n [] (r ∷ rs) = ⊥
  AllLetIn db' n (e ∷ es) [] = ⊥
  AllLetIn db' n (e ∷ es) (r ∷ rs) =
      ((row : WaitingRoomEntry) × (D.entries.get db'.entries e.id ≡ some row)
        × LetIn (draws n) e row
        × Tells row r)
      × AllLetIn db' (suc n) es rs

  -- The entries after `admit`.
  pub record Admitted (out : ℕ × List Response) (db' : Db D) : Type 0 where
    -- the line has as many entries as asked for at most, all of them waiting for the event,
    pub few : length line ≤ count
    pub waiting :
        (e : WaitingRoomEntry)
        → In e line
        → (D.entries.get db.entries e.id ≡ some e)
          × (e.event_id ≡ event_id)
          × (e.state ≡ WaitingRoomState.queued)
    -- each of them is stored as admitted under a token of its own, and told by its response,
    pub let_in : AllLetIn db' 0 line out.1
    -- the result counts them,
    pub counted : out.0 ≡ length line
    -- and any other entry is as it was.
    pub others :
        (i : ℕ) → ¬ In i (ids line) → D.entries.get db'.entries i ≡ D.entries.get db.entries i

  admit_saves :
      (out : ℕ × List Response)
      → (admit D draws event_id count db).0 ≡ ok out
      → (t : D.entries.Table) × (save_all D.entries (admit_all draws 0 line) db.entries ≡ some t)
        × ((admit D draws event_id count db).1 ≡ record db { entries = t })
        × (out ≡ (length (admit_all draws 0 line), map response (admit_all draws 0 line)))
  unfolding admit
  admit_saves out h = elim (Option-cases (save_all D.entries (admit_all draws 0 line) db.entries)) [
    | inl e ↦ absurd (ground arith)
    | inr (t, e) ↦ (t, e, ground arith, ground arith)
  ]

  rows_let_in :
      (db' : Db D) (n : ℕ) (es : List WaitingRoomEntry)
      → ((row : WaitingRoomEntry)
          → In row (admit_all draws n es)
          → D.entries.get db'.entries row.id ≡ some row)
      → AllLetIn db' n es (map response (admit_all draws n es))
  rows_let_in db' n [] h = tt
  rows_let_in db' n (e ∷ es) h = (
    (
      admit_entry (draws n) e,
      h (admit_entry (draws n) e) (inl refl),
      record { state = refl; token = refl; expiry = refl; kept = (refl, refl, refl, refl, refl) },
      record { which = (refl, refl, refl); admission = (refl, refl, refl) },
    ),
    rows_let_in db' (suc n) es (λ row m. h row (inr m)),
  )

  line-waiting :
      (e : WaitingRoomEntry)
      → In e line
      → (D.entries.get db.entries e.id ≡ some e)
        × (e.event_id ≡ event_id)
        × (e.state ≡ WaitingRoomState.queued)
  line-waiting e m =
      let queued = D.entries.find_by db.entries (queued_for D event_id) in
      let (g, q) =
        D.entries.listed db.entries (queued_for D event_id) e
          (In-by_position e queued (In-take count e (by_position queued) m)) in
      (g, ground (arith, ==_iff e.event_id event_id), queued_of_test e.state (ground arith))

  length-admit_all :
      (n : ℕ) (es : List WaitingRoomEntry) → length (admit_all draws n es) ≡ length es
  length-admit_all n [] = refl
  length-admit_all n (e ∷ es) = ap suc (length-admit_all (suc n) es)

  -- A run of `admit` that returns lets in the line, which has no more entries than asked for, each
  -- of them stored and waiting for the event: the n-th is now stored as admitted under the n-th new
  -- token with its expiry and told so by the n-th response, the result counts them, and every other
  -- entry is as it was.
  pub admit-Admitted :
      (out : ℕ × List Response)
      → (admit D draws event_id count db).0 ≡ ok out
      → Admitted out (admit D draws event_id count db).1
  admit-Admitted out h =
      let (t, saved, after, result) = admit_saves out h in
      let rows = admit_all draws 0 line in
      let same = ids-admit_all draws 0 line in
      let once : Distinct (ids rows) = rw same (
        Distinct-take count (by_position (D.entries.find_by db.entries (queued_for D event_id))) (
          Distinct-by_position (D.entries.find_by db.entries (queued_for D event_id))
            (D.entries.distinct db.entries (queued_for D event_id)))) in
      rw (after, result)
        (record {
          few =
              length-take-le count
                (by_position (D.entries.find_by db.entries (queued_for D event_id)));
          waiting = line-waiting;
          let_in =
              rows_let_in (record db { entries = t }) 0 line
                (λ row m. save_all_new D.entries rows db.entries t row saved once m);
          counted = length-admit_all 0 line;
          others = λ i out_of. save_all_other D.entries rows db.entries t i saved (rw same out_of);
        })
