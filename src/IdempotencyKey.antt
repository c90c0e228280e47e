-- ===== src/IdempotencyKey.antt =====
-- `idempotencyKey` of frontend/src/api.ts: the key that a tab sends with the payment of a
-- reservation.
pub mod Again
use Prim.Native.String.{◌++◌ as concat}
use text.Mathlib.TextLemmas.{append_inj}
use ki_ticket.Base.{
  String, ◌≡◌, ◌≢◌, ◌↔◌, ◌⊎◌, inl, inr, refl, arith, Bool, true, false, Option, none, some, str_eq,
  eq_iff, Bool-cases, Option-cases, if◌then◌else◌,
}
use ki_ticket.Storage.{Storage, set_item, try_set, filled}

-- What keeps keys in a tab: its session storage, and the map of the module.
pub record Tab : Type 0 where
  pub session : Storage
  pub volatile : Storage

-- Whether the two calls of the storage work, and the random part of a new key.
pub record Draw : Type 0 where
  pub readable : Bool
  pub writable : Bool
  pub random : String

abbrev pub storage_key : String → String
storage_key scope = concat "narm-idempotency-" scope

abbrev pub existing_key : Draw → String → Tab → Option String
existing_key draw scope tab =
    if draw.readable then tab.session (storage_key scope) else tab.volatile (storage_key scope)

abbrev pub generated_key : Draw → String → String
generated_key draw scope = concat scope (concat "-" draw.random)

abbrev pub existing_or_new : Draw → String → Tab → Option String → String × Tab
existing_or_new draw scope tab (some key) = (key, tab)
existing_or_new draw scope tab none =
    let key = generated_key draw scope in
    (
      key,
      record tab {
        session = try_set draw.writable (storage_key scope) key tab.session;
        volatile = set_item (storage_key scope) key tab.volatile;
      },
    )

unfoldable pub idempotency_key : Draw → String → Tab → String × Tab
idempotency_key draw scope tab =
    existing_or_new draw scope tab (filled (existing_key draw scope tab))
