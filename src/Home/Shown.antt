-- ===== src/Home/Shown.antt =====
-- What the home page shows, whatever the customer does and in whatever order replies come in.
use ki_ticket.Base.{
  String, ℕ, ◌+◌, ◌-◌, ◌≤◌, ◌≡◌, sym, ap, refl, ◌∙◌, subst, arith, true, false, not, ◌&&◌, List, [],
  ◌∷◌, ◌++◌, select, In, In-select, In-snoc, ltb, ◌==◌, Bool-cases, inl, inr,
}
use ki_ticket.Search.{EventPage}
use ki_ticket.Reserving.{Reply, got, refused}
use ki_ticket.Home.{
  Filters, Params, params_of, Request, Home, opened, rerun, set_filters, has_pages, previous_page,
  next_page, request_of, on_timer, at_least_one, show_reply, on_answer,
}

-- What the page shows of a reply.
abbrev pub Shows : Reply EventPage → Home → Type 0
Shows (got result) home =
    (home.events ≡ result.items)
    × (home.pages ≡ at_least_one result.pages)
    × (home.total ≡ result.total)
    × (home.error ≡ "")
Shows (refused message) home = home.error ≡ message

-- `Answers` tells which replies the server may give to a request.
module _ (iso : ℕ → String) (Answers : Params → Reply EventPage → Type 0) where
  pub data Step : Home → Home → Type 0 where
    filtered : (home : Home) (filters : Filters) → Step home (set_filters filters home)
    previous : (home : Home) → Step home (previous_page home)
    further : (home : Home) → Step home (next_page home)
    timer : (home : Home) → Step home (on_timer iso home)
    replied :
        (home : Home) (request : Request) (reply : Reply EventPage)
        → In request home.requests
        → Answers request.params reply
        → Step home (on_answer request reply home)

  pub data Reach : Home → Type 0 where
    start : Reach opened
    next : {home then : Home} → Reach home → Step home then → Reach then

  -- The params that the page wants now.
  abbrev wanted : Home → Params
  wanted home = params_of iso home.filters home.page

  record IsCurrent (home : Home) : Type 0 where
    positive : 1 ≤ home.page
    busy : home.scheduled ≡ true → home.loading ≡ true
    older : (r : Request) → In r home.requests → r.effect ≤ home.effect
    newest :
        (r : Request)
        → In r home.requests
        → r.effect ≡ home.effect
        → (r.params ≡ wanted home)
          × (home.scheduled ≡ false)
          × (home.loading ≡ true)
          × (home.error ≡ "")
    -- A run whose timer is up has its request in flight or its reply on the page.
    shown :
        home.loading ≡ false
        → (reply : Reply EventPage) × Answers (wanted home) reply × Shows reply home

  opened-IsCurrent : IsCurrent opened
  unfolding opened
  opened-IsCurrent = record {
    positive = omega arith;
    busy = λ e. refl;
    older = λ r m. absurd m;
    newest = λ r m e. absurd m;
    shown = λ e. absurd (ground arith);
  }

  rerun-IsCurrent :
      (home : Home) (filters : Filters) (page : ℕ)
      → 1 ≤ page
      → IsCurrent home
      → IsCurrent (rerun (record home { filters = filters; page = page }))
  rerun-IsCurrent home filters page h inv = record {
    positive = h;
    busy = λ e. refl;
    older = λ r m. let le = inv.older r m in omega arith;
    newest = λ r m e. let le = inv.older r m in absurd (omega arith);
    shown = λ e. absurd (ground arith);
  }

  filtered-IsCurrent :
      (home : Home) (filters : Filters) → IsCurrent home → IsCurrent (set_filters filters home)
  unfolding set_filters
  filtered-IsCurrent home filters inv = rerun-IsCurrent home filters 1 (omega arith) inv

  previous-IsCurrent : (home : Home) → IsCurrent home → IsCurrent (previous_page home)
  unfolding previous_page
  previous-IsCurrent home inv = elim (Bool-cases (has_pages home && ltb 1 home.page)) [
    | inl e ↦ rw e (rerun-IsCurrent home home.filters (home.page - 1) (ground arith) inv)
    | inr e ↦ rw e inv
  ]

  further-IsCurrent : (home : Home) → IsCurrent home → IsCurrent (next_page home)
  unfolding next_page
  further-IsCurrent home inv = elim (Bool-cases (has_pages home && ltb home.page home.pages)) [
    | inl e ↦ rw e (rerun-IsCurrent home home.filters (home.page + 1) (omega arith) inv)
    | inr e ↦ rw e inv
  ]

  on_timer-IsCurrent : (home : Home) → IsCurrent home → IsCurrent (on_timer iso home)
  unfolding on_timer
  on_timer-IsCurrent home inv = elim (Bool-cases home.scheduled) [
    | inl e ↦ simp e (sent e)
    | inr e ↦ simp e inv
  ]
    where
      sent :
          home.scheduled ≡ true
          → IsCurrent (record home {
            scheduled = false;
            error = "";
            requests = home.requests ++ request_of iso home ∷ [];
          })
      sent e = record {
        positive = inv.positive;
        busy = λ f. absurd (ground arith);
        older = λ r m. elim (In-snoc r (request_of iso home) home.requests m) [
          | inl k ↦ inv.older r k
          | inr q ↦ rw q (omega arith)
        ];
        newest = λ r m same. elim (In-snoc r (request_of iso home) home.requests m) [
          | inl k ↦ let idle = (inv.newest r k same).1 in absurd (ground arith)
          | inr q ↦ (ap (λ x. x.params) q, refl, inv.busy e, refl)
        ];
        shown = λ f. let busy = inv.busy e in absurd (ground arith);
      }

  abbrev others : Request → List Request → List Request
  others request = select (λ (r : Request). not (r.effect == request.effect))

  module _ (request : Request) (xs : List Request) (r : Request)
      (m : In r (others request xs)) where
    kept : In r xs
    kept = ((In-select (λ (x : Request). not (x.effect == request.effect)) r xs).0 m).0

    gone : ¬ (r.effect ≡ request.effect)
    gone e =
        let h = ((In-select (λ (x : Request). not (x.effect == request.effect)) r xs).0 m).1 in
        absurd (ground arith)

  kept-Shows :
      (home : Home) (rest : List Request) (reply : Reply EventPage)
      → Shows reply home
      → Shows reply (record home { requests = rest })
  kept-Shows home rest (got result) s = s
  kept-Shows home rest (refused m) s = s

  -- A reply to a run that is no longer active.
  stale-IsCurrent :
      (home : Home) (request : Request)
      → IsCurrent home
      → IsCurrent (record home { requests = others request home.requests })
  stale-IsCurrent home request inv = record {
    positive = inv.positive;
    busy = inv.busy;
    older = λ r m. inv.older r (kept request home.requests r m);
    newest = λ r m. inv.newest r (kept request home.requests r m);
    shown = λ e.
        let (reply, given, shows) = inv.shown e in
        (reply, given, kept-Shows home (others request home.requests) reply shows);
  }

  -- A reply to the active run.
  show_reply-IsCurrent :
      (home : Home) (request : Request) (reply : Reply EventPage)
      → In request home.requests
      → Answers request.params reply
      → request.effect ≡ home.effect
      → IsCurrent home
      → IsCurrent (show_reply reply (record home { requests = others request home.requests }))
  show_reply-IsCurrent home request (got result) m given same inv =
      let (params, idle, busy, clean) = inv.newest request m same in
      record {
        positive = inv.positive;
        busy = λ f. absurd (ground arith);
        older = λ r k. inv.older r (kept request home.requests r k);
        newest = λ r k e. absurd (gone request home.requests r k (e ∙ sym same));
        shown = λ e. (
          got result,
          subst (λ p. Answers p (got result)) params given,
          (refl, refl, refl, clean),
        );
      }
  show_reply-IsCurrent home request (refused message) m given same inv =
      let (params, idle, busy, clean) = inv.newest request m same in
      record {
        positive = inv.positive;
        busy = λ f. absurd (ground arith);
        older = λ r k. inv.older r (kept request home.requests r k);
        newest = λ r k e. absurd (gone request home.requests r k (e ∙ sym same));
        shown = λ e. (refused message, subst (λ p. Answers p (refused message)) params given, refl);
      }

  Step-IsCurrent : {home then : Home} → Step home then → IsCurrent home → IsCurrent then
  unfolding on_answer
  Step-IsCurrent (filtered home filters) inv = filtered-IsCurrent home filters inv
  Step-IsCurrent (previous home) inv = previous-IsCurrent home inv
  Step-IsCurrent (further home) inv = further-IsCurrent home inv
  Step-IsCurrent (timer home) inv = on_timer-IsCurrent home inv
  Step-IsCurrent (replied home request reply m given) inv =
      elim (Bool-cases (request.effect == home.effect)) [
        | inl e ↦ rw e (show_reply-IsCurrent home request reply m given (ground arith) inv)
        | inr e ↦ rw e (stale-IsCurrent home request inv)
      ]

  Reach-IsCurrent : {home : Home} → Reach home → IsCurrent home
  Reach-IsCurrent start = opened-IsCurrent
  Reach-IsCurrent (next r s) = Step-IsCurrent s (Reach-IsCurrent r)

  -- The home page shows what was asked: whatever filters and pages the customer chooses and in
  -- whatever order replies come in, a page that is not loading shows a reply that answers the
  -- request for its filters and its page, and its page is one at least.
  pub Reach-Shows :
      {home : Home}
      → Reach home
      → home.loading ≡ false
      → ((reply : Reply EventPage) × Answers (params_of iso home.filters home.page) reply
          × Shows reply home)
        × (1 ≤ home.page)
  Reach-Shows r e = let inv = Reach-IsCurrent r in (inv.shown e, inv.positive)
