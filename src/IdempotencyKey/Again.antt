-- ===== src/IdempotencyKey/Again.antt =====
-- When a tab sends the same key again.
use Prim.Native.String.{◌++◌ as concat}
use text.Mathlib.TextLemmas.{append_cancel_left, append-ne-nil_of_right_ne-nil, append-eq-nil_iff}
use text.Mathlib.TextPositions.{eq_refl}
use ki_ticket.Base.{
  String, ◌≡◌, ◌≢◌, ◌↔◌, ◌⊎◌, ◌∙◌, sym, inl, inr, refl, arith, true, false, none, str_eq, eq_iff,
  Bool-cases, Option-cases,
}
use ki_ticket.Storage.{filled}
use ki_ticket.IdempotencyKey.{Tab, Draw, storage_key, existing_key, generated_key, idempotency_key}

dash-ne-nil : (s : String) → concat "-" s ≢ ""
dash-ne-nil s h = let both = append-eq-nil_iff.0 h in let e = (eq_iff "-" "").1 both.0 in cc

generated-ne-nil : (d : Draw) (scope : String) → str_eq (generated_key d scope) "" ≡ false
generated-ne-nil d scope = elim (Bool-cases (str_eq (generated_key d scope) "")) [
  | inr e ↦ e
  | inl e ↦ absurd (append-ne-nil_of_right_ne-nil scope (dash-ne-nil d.random) ((eq_iff _ _).0 e))
]

generated_injective :
    (d e : Draw) (scope : String)
    → generated_key d scope ≡ generated_key e scope
    → d.random ≡ e.random
generated_injective d e scope h = append_cancel_left "-" _ _ (append_cancel_left scope _ _ h)

module _ (d e : Draw) (scope : String) (tab : Tab) where
  again_unreadable :
      e.readable ≡ false
      → filled (existing_key d scope tab) ≡ none
      → (idempotency_key e scope (idempotency_key d scope tab).1).0
        ≡ (idempotency_key d scope tab).0
  unfolding idempotency_key
  again_unreadable r n = ground (arith, eq_refl (storage_key scope), generated-ne-nil d scope)

  again_writable :
      e.readable ≡ true
      → d.writable ≡ true
      → filled (existing_key d scope tab) ≡ none
      → (idempotency_key e scope (idempotency_key d scope tab).1).0
        ≡ (idempotency_key d scope tab).0
  unfolding idempotency_key
  again_writable r w n = ground (arith, eq_refl (storage_key scope), generated-ne-nil d scope)

  again_lost :
      e.readable ≡ true
      → d.writable ≡ false
      → filled (existing_key d scope tab) ≡ none
      → filled (tab.session (storage_key scope)) ≡ none
      → (idempotency_key e scope (idempotency_key d scope tab).1).0 ≡ generated_key e scope
  unfolding idempotency_key
  again_lost r w n m = ground arith

  first_key :
      filled (existing_key d scope tab) ≡ none
      → (idempotency_key d scope tab).0 ≡ generated_key d scope
  unfolding idempotency_key
  first_key n = rw (n, idempotency_key) refl

  -- A tab that has no key of a reservation yet sends the same key a second time exactly if the
  -- session storage took the first one or cannot be read the second time, where the random parts of
  -- new keys differ.
  pub key_again_iff :
      filled (existing_key d scope tab) ≡ none
      → filled (tab.session (storage_key scope)) ≡ none
      → d.random ≢ e.random
      → ((idempotency_key e scope (idempotency_key d scope tab).1).0
          ≡ (idempotency_key d scope tab).0)
        ↔ ((d.writable ≡ true) ⊎ (e.readable ≡ false))
  key_again_iff n m differ = elim (Bool-cases e.readable) [
    | inr r ↦ (λ _. inr r, λ _. again_unreadable r n)
    | inl r ↦ elim (Bool-cases d.writable) [
      | inl w ↦ (λ _. inl w, λ _. again_writable r w n)
      | inr w ↦ (
        λ h. absurd (
            differ
              (sym (generated_injective e d scope (sym (again_lost r w n m) ∙ h ∙ first_key n)))),
        λ h. elim h [ inl a ↦ cc | inr b ↦ cc ],
      )
    ]
  ]

  -- While the storage works, a tab keeps its key.
  pub key_kept :
      d.readable ≡ true
      → d.writable ≡ true
      → e.readable ≡ true
      → (idempotency_key e scope (idempotency_key d scope tab).1).0
        ≡ (idempotency_key d scope tab).0
  unfolding idempotency_key
  key_kept r w r' = elim (Option-cases (filled (existing_key d scope tab))) [
    | inl n ↦ again_writable r' w n
    | inr (key, k) ↦ ground (arith)
  ]
