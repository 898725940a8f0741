-- ===== src/Auth/Sessions.antt =====
-- src/auth/services/session.service.ts, and the tables of prisma/schema.prisma that the
-- authentication reads and writes. A text that is only compared is a number, 0 being the empty one.
use cobdata_back.Base.{
  ℕ, Bool, true, not, ◌&&◌, Option, List, [], ◌∷◌, ◌++◌, ltb, ◌==◌, if◌then◌else◌, find, keep,
  update_where,
}

abbrev pub Text : Type 0
Text = ℕ

abbrev pub Date : Type 0
Date = ℕ

-- model User
pub record User : Type 0 where
  pub id : Text
  pub account_id : Text
  pub creditor_id : Option Text
  pub email : Text
  pub password_hash : Option Text
  pub role : Text
  pub is_active : Bool
  pub must_reset_password : Bool

-- model Session
pub record Session : Type 0 where
  pub id : Text
  pub user_id : Text
  pub token_family : Text
  pub refresh_token_hash : Text
  pub user_agent : Option Text
  pub ip_address : Option Text
  pub is_revoked : Bool
  pub created_at : Date
  pub expires_at : Date
  pub last_used_at : Date

pub data InviteStatus : Type 0 where
  pending accepted expired : InviteStatus

-- model Invite
pub record Invite : Type 0 where
  pub id : Text
  pub user_id : Text
  pub token : Text
  pub status : InviteStatus
  pub expires_at : Date

-- A key `password-reset:${hash}` of Redis, with the time at which it goes.
pub record ResetEntry : Type 0 where
  pub hash : Text
  pub user_id : Text
  pub expires_at : Date

pub record AuthState : Type 0 where
  pub users : List User
  pub sessions : List Session
  pub invites : List Invite
  pub resets : List ResetEntry

abbrev pub session_has_id : Text → Session → Bool
session_has_id k x = x.id == k

abbrev pub has_hash : Text → Session → Bool
has_hash hash x = x.refresh_token_hash == hash

abbrev pub revoked : Session → Session
revoked x = record x { is_revoked = true }

abbrev pub set_sessions : (List Session → List Session) → AuthState → AuthState
set_sessions f s = record s { sessions = f s.sessions }

abbrev pub create : Session → AuthState → AuthState
create x = set_sessions λ xs. xs ++ x ∷ []

abbrev pub find_by_refresh_token_hash : Text → AuthState → Option Session
find_by_refresh_token_hash hash s = find (has_hash hash) s.sessions

abbrev pub find_by_id : Text → AuthState → Option Session
find_by_id k s = find (session_has_id k) s.sessions

abbrev pub rotate_token : Date → Text → Text → AuthState → AuthState
rotate_token now k hash = set_sessions (
    update_where (session_has_id k) λ x. record x { refresh_token_hash = hash; last_used_at = now })

-- `orderBy: { createdAt: 'desc' }`
abbrev pub insert_newest : Session → List Session → List Session
insert_newest x [] = x ∷ []
insert_newest x (y ∷ ys) =
    if ltb x.created_at y.created_at then y ∷ insert_newest x ys else x ∷ y ∷ ys

abbrev pub newest_first : List Session → List Session
newest_first [] = []
newest_first (x ∷ xs) = insert_newest x (newest_first xs)

abbrev pub is_live : Date → Text → Session → Bool
is_live now user_id x = x.user_id == user_id && not x.is_revoked && ltb now x.expires_at

unfoldable pub list_active : Date → Text → AuthState → List Session
list_active now user_id s = newest_first (keep (is_live now user_id) s.sessions)

unfoldable pub revoke : Text → AuthState → AuthState
revoke k = set_sessions (update_where (session_has_id k) revoked)

unfoldable pub revoke_all_except : Text → Text → AuthState → AuthState
revoke_all_except user_id kept =
    set_sessions
      (update_where (λ x. x.user_id == user_id && not (x.id == kept) && not x.is_revoked) revoked)

unfoldable pub revoke_by_token_family : Text → AuthState → AuthState
revoke_by_token_family family =
    set_sessions (update_where (λ x. x.token_family == family && not x.is_revoked) revoked)

unfoldable pub revoke_all : Text → AuthState → AuthState
revoke_all user_id =
    set_sessions (update_where (λ x. x.user_id == user_id && not x.is_revoked) revoked)
