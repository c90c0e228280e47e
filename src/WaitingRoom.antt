-- ===== src/WaitingRoom.antt =====
-- backend/src/waiting-room.controller.ts: the admission check that a reservation passes.
pub mod Admission
use ki_ticket.Base.{
  ℕ, String, Bool, true, false, not, ◌&&◌, Option, none, some, ◌==◌, leb, str_eq, if◌then◌else◌,
}
use ki_ticket.Outcome.{Exec, forbidden, raise, pure}
use ki_ticket.Entities.{WaitingRoomEntry, same_text, is_admitted}
use ki_ticket.World.{Repositories, Db}

-- `entry.tokenExpiresAt && entry.tokenExpiresAt > now`
abbrev pub unexpired : Option ℕ → ℕ → Bool
unexpired none now = false
unexpired (some t) now = not (leb t now)

abbrev pub grants : ℕ → ℕ → String → WaitingRoomEntry → Bool
grants event_id user_id token e =
    e.event_id == event_id
    && (e.user_id == user_id && (same_text e.admission_token (some token) && is_admitted e.state))

module _ (D : Repositories) where
  check_entry : Option WaitingRoomEntry → ℕ → Exec (Db D) (Unit {0})
  check_entry none now = raise (forbidden "Admission token is invalid or expired")
  check_entry (some entry) now =
      if unexpired entry.token_expires_at now
      then pure tt
      else raise (forbidden "Admission token is invalid or expired")

  check_token : ℕ → ℕ → ℕ → Option String → Exec (Db D) (Unit {0})
  unfolding check_entry
  check_token now event_id user_id none db =
      raise (forbidden "Waiting-room admission token is required") db
  check_token now event_id user_id (some token) db =
      if str_eq token ""
      then raise (forbidden "Waiting-room admission token is required") db
      else check_entry (D.entries.find_one_by db.entries (grants event_id user_id token)) now db

  -- `WaitingRoomService.assertAdmission`; `required` is `WAITING_ROOM_REQUIRED`
  unfoldable pub assert_admission : Bool → ℕ → ℕ → ℕ → Option String → Exec (Db D) (Unit {0})
  unfolding check_token
  assert_admission required now event_id user_id token =
      if required then check_token now event_id user_id token else pure tt
