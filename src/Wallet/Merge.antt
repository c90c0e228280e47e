-- ===== src/Wallet/Merge.antt =====
-- What a wallet holds after a purchase.
use ki_ticket.Base.{
  ℕ, ◌≡◌, sym, subst, refl, ◌↔◌, ◌⊎◌, inl, inr, arith, Bool, true, false, not, List, [], ◌∷◌, ◌++◌,
  select, map, In, In-map, In-of_map, Distinct, In-select, Bool-cases,
}
use ki_ticket.Wallet.{StoredTicket, has_ticket, merged}

abbrev pub ids : List StoredTicket → List ℕ
ids = map (λ (t : StoredTicket). t.id)

has_ticket-In : (id : ℕ) (xs : List StoredTicket) → has_ticket id xs ≡ true → In id (ids xs)
has_ticket-In id [] h = cc
has_ticket-In id (t ∷ rest) h = ground (arith, has_ticket-In id rest)

In-has_ticket : (id : ℕ) (xs : List StoredTicket) → In id (ids xs) → has_ticket id xs ≡ true
In-has_ticket id [] m = absurd m
In-has_ticket id (t ∷ rest) m = ground (arith, In-has_ticket id rest)

module _ {A : Type 0} where
  In-append_iff : (x : A) (xs ys : List A) → In x (xs ++ ys) ↔ (In x xs ⊎ In x ys)
  In-append_iff x [] ys = (λ m. inr m, λ m. elim m [ inl q ↦ absurd q | inr q ↦ q ])
  In-append_iff x (y ∷ xs) ys = ground (arith, In-append_iff x xs ys)

abbrev kept : List StoredTicket → StoredTicket → Bool
kept stored t = not (has_ticket t.id stored)

fresh :
    (id : ℕ) (rest stored : List StoredTicket)
    → ¬ In id (ids rest)
    → has_ticket id stored ≡ false
    → ¬ In id (ids (select (kept stored) rest ++ stored))
fresh id rest stored n h m =
    let (u, there, same) =
      In-of_map (λ (t : StoredTicket). t.id) id (select (kept stored) rest ++ stored) m in
    elim ((In-append_iff u (select (kept stored) rest) stored).0 there) [
      | inl q ↦ n (
          subst (λ x. In x (ids rest)) (sym same)
            (In-map (λ (t : StoredTicket). t.id) u rest ((In-select (kept stored) u rest).0 q).0))
      | inr q ↦
          let there' = In-has_ticket u.id stored (In-map (λ (t : StoredTicket). t.id) u stored q) in
          absurd (ground arith)
    ]

Distinct-merge :
    (existing stored : List StoredTicket)
    → Distinct (ids existing)
    → Distinct (ids stored)
    → Distinct (ids (select (kept stored) existing ++ stored))
Distinct-merge [] stored d e = e
Distinct-merge (t ∷ rest) stored d e = elim (Bool-cases (has_ticket t.id stored)) [
  | inl h ↦ rw h (Distinct-merge rest stored d.1 e)
  | inr h ↦ rw h (fresh t.id rest stored d.0 h, Distinct-merge rest stored d.1 e)
]

-- merged
pub merged_lem :
    (existing stored : List StoredTicket)
    → Distinct (ids existing)
    → Distinct (ids stored)
    → Distinct (ids (merged existing stored))
      × ((t : StoredTicket)
          → In t (merged existing stored)
            ↔ (In t stored ⊎ (In t existing × ¬ In t.id (ids stored))))
unfolding merged
merged_lem existing stored d e = (
  Distinct-merge existing stored d e,
  λ t. (
    λ m. elim ((In-append_iff t (select (kept stored) existing) stored).0 m) [
      | inl q ↦
          let both = (In-select (kept stored) t existing).0 q in
          inr (both.0, λ n. let yes_stored = In-has_ticket t.id stored n in absurd (ground arith))
      | inr q ↦ inl q
    ],
    λ m. (In-append_iff t (select (kept stored) existing) stored).1 (elim m [
      | inl q ↦ inr q
      | inr (q, n) ↦ inl (
          (In-select (kept stored) t existing).1 (
            q,
            elim (Bool-cases (has_ticket t.id stored)) [
              | inl h ↦ absurd (n (has_ticket-In t.id stored h))
              | inr h ↦ rw h refl
            ],
          ))
    ]),
  ),
)
