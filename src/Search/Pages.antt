-- ===== src/Search/Pages.antt =====
-- What the pages of a search show.
use ki_ticket.Base.{
  ℕ, zero, suc, ◌+◌, ◌-◌, ◌*◌, ◌≤◌, ◌<◌, String, ◌≡◌, ◌↔◌, refl, ap, ap₂, subst, sym, ◌∙◌, arith,
  Bool, true, some, List, [], ◌++◌, In, Distinct, length, Ordered, page_at, pages_from,
  pages_from_lem, drop,
}
use ki_ticket.Entities.{Event}
use ki_ticket.World.{Repositories, Db}
use ki_ticket.Search.{EventQuery, starts_before, ceil_div, listed_at, matches, list_events}
use ki_ticket.Search.Arranged.{Arrangement, StartApart, Arrangement-one}

ceil_div_enough : (a b : ℕ) → 0 < b → a ≤ ceil_div a b * b
ceil_div_enough a b h = grind arith

module _ (ilike : String → String → Bool) (joined : List String → String) (D : Repositories)
    (now : ℕ) (db : Db D) (query : EventQuery) where
  abbrev pub found : List Event
  found = matches ilike joined D now query db

  abbrev last_page : ℕ
  last_page = ceil_div (length found) query.limit

  -- The items of the pages from the k-th on, each under the order of its own request.
  abbrev pub items_from : (ℕ → List Event → List Event) → ℕ → ℕ → List Event
  items_from arranges k zero = []
  items_from arranges k (suc more) =
      (list_events ilike joined D (arranges k) now (record query { page = suc k }) db).items
      ++ items_from arranges (suc k) more

  module _ (arranges : ℕ → List Event → List Event)
      (orders : (k : ℕ) → Arrangement found (arranges k found)) (apart : StartApart found) where
    abbrev results : List Event
    results = arranges 0 found

    items_from-pages_from :
        (k more : ℕ) → items_from arranges k more ≡ pages_from query.limit k more results
    unfolding list_events
    items_from-pages_from k zero = refl
    items_from-pages_from k (suc more) =
        let same : suc k - 1 ≡ k = omega arith in
        let one = Arrangement-one found (arranges k found) results apart (orders k) (orders 0) in
        ap₂ (λ x y. x ++ y) (ap₂ (λ n xs. page_at query.limit n xs) same one)
          (items_from-pages_from (suc k) more)

    -- All pages, one after the other.
    all_items : 0 < query.limit → items_from arranges 0 last_page ≡ results
    all_items pos =
        items_from-pages_from 0 last_page
        ∙ pages_from_lem query.limit 0 last_page results enough
        ∙ ap (λ n. drop n results) nothing
      where
        enough : length results ≤ (0 + last_page) * query.limit
        enough =
            subst (λ n. length results ≤ n * query.limit) (omega arith)
              (subst (λ n. n ≤ last_page * query.limit) (sym (orders 0).size)
                (ceil_div_enough (length found) query.limit pos))

        nothing : 0 * query.limit ≡ 0
        nothing = omega arith

    -- The pages of a search, one after the other, at one instant and of the same tables, show every
    -- event that is listed exactly where it belongs: they are in the order of the starts, no event
    -- is shown twice, there are as many as the total says, and an event is among them exactly if it
    -- is stored and meets the query. It holds of a positive limit, if no two of the events start at
    -- once, whichever order by the starts the database takes for each page.
    pub list_events-pages :
        (arrange : List Event → List Event)
        → 0 < query.limit
        → let first = list_events ilike joined D arrange now query db in
          let items = items_from arranges 0 first.pages in
          Ordered starts_before items
          × Distinct items
          × (length items ≡ first.total)
          × ((e : Event)
              → In e items ↔ (
                  (D.events.get db.events e.id ≡ some e)
                  × (listed_at ilike joined D now query db e ≡ true)))
    unfolding list_events
    list_events-pages arrange pos =
        let all = all_items pos in
        (
          rw all (orders 0).ordered,
          rw all (orders 0).once,
          ap length all ∙ (orders 0).size,
          λ e. rw all (
            λ m.
                D.events.listed db.events (listed_at ilike joined D now query db) e
                  (((orders 0).members e).0 m),
            λ h. ((orders 0).members e).1 (
                D.events.complete db.events (listed_at ilike joined D now query db) e.id e h.0 h.1),
          ),
        )
