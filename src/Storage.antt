-- ===== src/Storage.antt =====
-- `localStorage` and `sessionStorage` of the browser. A call may throw, as when the storage is
-- blocked or full: whether it does is an argument of the code that makes the call.
use ki_ticket.Base.{String, Bool, Option, none, some, str_eq, if◌then◌else◌}

abbrev pub Storage : Type 0
Storage = String → Option String

abbrev pub set_item : String → String → Storage → Storage
set_item key value s k = if str_eq k key then some value else s k

abbrev pub remove_item : String → Storage → Storage
remove_item key s k = if str_eq k key then none else s k

-- `try { setItem } catch { }` and `try { removeItem } catch { }`
abbrev pub try_set : (works : Bool) → String → String → Storage → Storage
try_set works key value s = if works then set_item key value s else s

abbrev pub try_remove : (works : Bool) → String → Storage → Storage
try_remove works key s = if works then remove_item key s else s

-- `if (value)` of a value that `getItem` gives: an empty text counts as none.
abbrev pub filled : Option String → Option String
filled none = none
filled (some s) = if str_eq s "" then none else some s
