-- ===== src/Search/Arranged.antt =====
-- The orders in which the database may return the events of a search.
use ki_ticket.Base.{
  ◌≡◌, ◌↔◌, ◌∙◌, ap, ap₂, subst, sym, refl, arith, true, false, List, [], ◌∷◌, All, In, Distinct,
  length, inl, inr, Ordered, In-sort_by, length-sort_by, sort_by, insert_by, In-insert_by,
  sort_by-Ordered, Bool-cases,
}
use ki_ticket.Entities.{Event}
use ki_ticket.Search.{starts_before}

-- What `ORDER BY "startsAt"` promises: the same rows, once each, in the order of their starts.
pub record Arrangement (found arranged : List Event) : Type 0 where
  pub ordered : Ordered starts_before arranged
  pub members : (e : Event) → In e arranged ↔ In e found
  pub once : Distinct arranged
  pub size : length arranged ≡ length found

-- No two of the events start at once.
abbrev pub StartApart : List Event → Type 0
StartApart found = (a b : Event) → In a found → In b found → a.starts_at ≡ b.starts_at → a ≡ b

starts_total : (a b : Event) → starts_before a b ≡ false → starts_before b a ≡ true
starts_total a b h = ground arith

starts_transitive :
    (a b c : Event) → starts_before a b ≡ true → starts_before b c ≡ true → starts_before a c ≡ true
starts_transitive a b c h k = ground arith

module _ {A : Type 0} (P : A → Type 0) where
  All-In : (xs : List A) (x : A) → All P xs → In x xs → P x
  All-In (y ∷ ys) x a (inl e) = subst P (sym e) a.0
  All-In (y ∷ ys) x a (inr m) = All-In ys x a.1 m
  All-In [] x a m = absurd m

-- Events that start apart have one order only.
one_order :
    (xs ys : List Event)
    → Ordered starts_before xs
    → Ordered starts_before ys
    → Distinct xs
    → Distinct ys
    → ((e : Event) → In e xs ↔ In e ys)
    → StartApart xs
    → xs ≡ ys
one_order [] [] o p d e m a = refl
one_order [] (y ∷ ys) o p d e m a = absurd ((m y).1 (inl refl))
one_order (x ∷ xs) [] o p d e m a = absurd ((m x).0 (inl refl))
one_order (x ∷ xs) (y ∷ ys) o p d e m a =
    let heads : x ≡ y =
      a x y (inl refl) ((m y).1 (inl refl)) (level ((m x).0 (inl refl)) ((m y).1 (inl refl))) in
    ap₂ (λ z zs. z ∷ zs) heads
      (one_order xs ys o.1 p.1 d.1 e.1 (λ z. (λ k. rest_left heads z k, λ k. rest_right heads z k))
        (λ b c k l q. a b c (inr k) (inr l) q))
  where
    level : In x (y ∷ ys) → In y (x ∷ xs) → x.starts_at ≡ y.starts_at
    level (inl q) k = ap (λ (z : Event). z.starts_at) q
    level (inr q) (inl k) = ap (λ (z : Event). z.starts_at) (sym k)
    level (inr q) (inr k) =
        let before = All-In (λ z. starts_before y z ≡ true) ys x p.0 q in
        let after = All-In (λ z. starts_before x z ≡ true) xs y o.0 k in ground arith

    rest_left : x ≡ y → (z : Event) → In z xs → In z ys
    rest_left heads z k = elim ((m z).0 (inr k)) [
      | inl q ↦ absurd (d.0 (subst (λ w. In w xs) (q ∙ sym heads) k))
      | inr l ↦ l
    ]

    rest_right : x ≡ y → (z : Event) → In z ys → In z xs
    rest_right heads z k = elim ((m z).1 (inr k)) [
      | inl q ↦ absurd (e.0 (subst (λ w. In w ys) (q ∙ heads) k))
      | inr l ↦ l
    ]

pub Arrangement-one :
    (found xs ys : List Event)
    → StartApart found
    → Arrangement found xs
    → Arrangement found ys
    → xs ≡ ys
Arrangement-one found xs ys apart p q =
    one_order xs ys p.ordered q.ordered p.once q.once
      (λ e. (λ m. (q.members e).1 ((p.members e).0 m), λ m. (p.members e).1 ((q.members e).0 m)))
      (λ a b m n. apart a b ((p.members a).0 m) ((p.members b).0 n))

Distinct-insert :
    (x : Event) (ys : List Event)
    → ¬ In x ys
    → Distinct ys
    → Distinct (insert_by starts_before x ys)
Distinct-insert x [] n d = (n, tt)
Distinct-insert x (y ∷ ys) n d = elim (Bool-cases (starts_before x y)) [
  | inl q ↦ rw q (n, d)
  | inr q ↦ rw q (
    λ m. elim ((In-insert_by starts_before y x ys).0 m) [
      | inl same ↦ n (inl (sym same))
      | inr k ↦ d.0 k
    ],
    Distinct-insert x ys (λ m. n (inr m)) d.1,
  )
]

Distinct-sort_by : (xs : List Event) → Distinct xs → Distinct (sort_by starts_before xs)
Distinct-sort_by [] d = tt
Distinct-sort_by (x ∷ xs) d =
    Distinct-insert x (sort_by starts_before xs) (λ m. d.0 ((In-sort_by starts_before x xs).0 m))
      (Distinct-sort_by xs d.1)

-- A stable sort is such an order.
pub sort_by-Arrangement :
    (found : List Event) → Distinct found → Arrangement found (sort_by starts_before found)
sort_by-Arrangement found d = record {
  ordered = sort_by-Ordered starts_before starts_total starts_transitive found;
  members = λ e. In-sort_by starts_before e found;
  once = Distinct-sort_by found d;
  size = length-sort_by starts_before found;
}
