-- ===== src/Organizing/Once.antt =====
-- The form of an event, submitted until it succeeds, makes one event.
use mathlib.Core.List.{append-nil, append_assoc, map-append}
use ki_ticket.Base.{
  ℕ, ◌≡◌, refl, sym, ap, ◌∙◌, Bool, true, false, Option, none, some, List, [], ◌∷◌, ◌++◌, map,
  arith,
}
use ki_ticket.Reserving.{Reply, got, refused}
use ki_ticket.Organizing.{
  EventSummary, Request, create_event, add_pricing, publish_event, EventForm, Replies, Edit, submit,
  edited,
}

-- What the replies of the server confirm: the events made, the prices added and the publications.
pub record Account : Type 0 where
  pub events : List EventSummary
  pub prices : List ℕ
  pub publications : List ℕ

abbrev pub nothing : Account
nothing = record { events = []; prices = []; publications = [] }

abbrev pub both : Account → Account → Account
both a b = record {
  events = a.events ++ b.events;
  prices = a.prices ++ b.prices;
  publications = a.publications ++ b.publications;
}

abbrev pub event_made : Reply EventSummary → Account
event_made (got e) = record { events = e ∷ []; prices = []; publications = [] }
event_made (refused m) = nothing

abbrev pub price_added : ℕ → Reply (Unit {0}) → Account
price_added id (got u) = record { events = []; prices = id ∷ []; publications = [] }
price_added id (refused m) = nothing

abbrev pub published : ℕ → Reply (Unit {0}) → Account
published id (got u) = record { events = []; prices = []; publications = id ∷ [] }
published id (refused m) = nothing

abbrev pub accepted_request : Replies → Request → Account
accepted_request replies (create_event body) = event_made replies.created
accepted_request replies (add_pricing id price) = price_added id replies.priced
accepted_request replies (publish_event id) = published id replies.published

abbrev pub accepted : Replies → List Request → Account
accepted replies [] = nothing
accepted replies (r ∷ rest) = both (accepted_request replies r) (accepted replies rest)

abbrev pub drafts : Option EventSummary → List EventSummary
drafts none = []
drafts (some e) = e ∷ []

abbrev pub ids : List EventSummary → List ℕ
ids = map (λ (e : EventSummary). e.id)

abbrev pub priced_drafts : Bool → Option EventSummary → List ℕ
priced_drafts true draft = ids (drafts draft)
priced_drafts false draft = []

-- What a form says that the server has confirmed.
abbrev pub claimed : EventForm → Account
claimed form = record {
  events = form.finished ++ drafts form.draft;
  prices = ids form.finished ++ priced_drafts form.pricing_ready form.draft;
  publications = ids form.finished;
}

-- A form without a draft has no price for it.
abbrev pub Sound : Option EventSummary → Bool → Type 0
Sound none ready = ready ≡ false
Sound (some e) ready = Unit {0}

-- Submissions one after the other, each after an edit.
abbrev pub submissions : List (Edit × Replies) → EventForm → EventForm × Account
submissions [] form = (form, nothing)
submissions ((e, replies) ∷ rest) form =
    let (next, requests) = submit replies (edited e form) in
    let (last, more) = submissions rest next in (last, both (accepted replies requests) more)

ids-append : (xs ys : List EventSummary) → ids (xs ++ ys) ≡ ids xs ++ ids ys
ids-append = map-append (λ (e : EventSummary). e.id)

ruleset appends = (append-nil, ids-append)

both-nothing : (a : Account) → both a nothing ≡ a
both-nothing a i = record {
  events = append-nil a.events i;
  prices = append-nil a.prices i;
  publications = append-nil a.publications i;
}

both_assoc : (a b c : Account) → both (both a b) c ≡ both a (both b c)
both_assoc a b c i = record {
  events = append_assoc a.events b.events c.events i;
  prices = append_assoc a.prices b.prices c.prices i;
  publications = append_assoc a.publications b.publications c.publications i;
}

abbrev answers : Reply EventSummary → Reply (Unit {0}) → Reply (Unit {0}) → Replies
answers c p u = record { created = c; priced = p; published = u }

module _ (form : EventForm) where
  -- The form with its draft, and the answers to its requests, spelled out.
  abbrev at : Option ℕ → Option EventSummary → Bool → EventForm
  at starts_at draft ready = record form {
    starts_at = starts_at;
    draft = draft;
    pricing_ready = ready;
  }

  submit-claimed :
      (starts_at : Option ℕ) (draft : Option EventSummary) (ready : Bool) (c : Reply EventSummary)
      (p u : Reply (Unit {0}))
      → Sound draft ready
      → let r = submit (answers c p u) (at starts_at draft ready) in
        Sound r.0.draft r.0.pricing_ready
        × (claimed r.0 ≡ both (claimed (at starts_at draft ready)) (accepted (answers c p u) r.1))
  unfolding submit
  submit-claimed none draft ready c p u s = (s, simp appends)
  submit-claimed (some t) (some e) true c p (got u) s = (refl, simp appends)
  submit-claimed (some t) (some e) true c p (refused m) s = (tt, simp appends)
  submit-claimed (some t) (some e) false c (got v) (got u) s = (refl, simp appends)
  submit-claimed (some t) (some e) false c (got v) (refused m) s = (tt, simp appends)
  submit-claimed (some t) (some e) false c (refused m) u s = (tt, simp appends)
  submit-claimed (some t) none true c p u s = absurd (ground arith)
  submit-claimed (some t) none false (refused m) p u s = (refl, simp appends)
  submit-claimed (some t) none false (got e) (refused m) u s = (tt, simp appends)
  submit-claimed (some t) none false (got e) (got v) (refused m) s = (tt, simp appends)
  submit-claimed (some t) none false (got e) (got v) (got u) s = (refl, simp appends)

module _ (form : EventForm) (s : Sound form.draft form.pricing_ready) where
  -- One submission.
  submit-accepted :
      (replies : Replies)
      → let r = submit replies form in
        Sound r.0.draft r.0.pricing_ready
        × (claimed r.0 ≡ both (claimed form) (accepted replies r.1))
  submit-accepted replies =
      submit-claimed form form.starts_at form.draft form.pricing_ready replies.created
        replies.priced replies.published s

submissions-claimed :
    (xs : List (Edit × Replies)) (form : EventForm)
    → Sound form.draft form.pricing_ready
    → claimed (submissions xs form).0 ≡ both (claimed form) (submissions xs form).1
submissions-claimed [] form s = sym (both-nothing (claimed form))
submissions-claimed ((e, replies) ∷ rest) form s =
    let next = submit replies (edited e form) in
    let more = (submissions rest next.0).1 in
    let one = submit-accepted (edited e form) s replies in
    submissions-claimed rest next.0 one.0
    ∙ ap (λ a. both a more) one.1
    ∙ both_assoc (claimed (edited e form)) (accepted replies next.1) more

-- The events are made once: after any series of edits and submissions of an empty form, whatever
-- the server replies, the events that its replies confirm are exactly those that the form has
-- finished and the draft that it still holds, and so it is for the publications and the prices.
pub submissions_lem :
    (xs : List (Edit × Replies)) (form : EventForm)
    → form.finished ≡ []
    → form.draft ≡ none
    → form.pricing_ready ≡ false
    → let (last, account) = submissions xs form in
      (account.events ≡ last.finished ++ drafts last.draft)
      × (account.publications ≡ ids last.finished)
      × (account.prices ≡ ids last.finished ++ priced_drafts last.pricing_ready last.draft)
submissions_lem xs form none_finished no_draft no_price =
    let lem = submissions-claimed xs form (rw (no_draft, no_price) refl) in
    let start : claimed form ≡ nothing = rw (none_finished, no_draft, no_price) refl in
    let whole = sym (lem ∙ ap (λ a. both a (submissions xs form).1) start) in
    (ap (λ a. a.events) whole, ap (λ a. a.publications) whole, ap (λ a. a.prices) whole)
