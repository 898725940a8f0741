-- ===== src/Auth/Service.antt =====
-- src/auth/auth.service.ts: the operations on users, sessions, invites and passwords. The mails are
-- not sent here.
use cobdata_back.Base.{
  ℕ, ◌+◌, ◌*◌, Bool, true, false, not, ◌&&◌, Option, none, some, List, ◌∷◌, map, ltb, ◌==◌,
  if◌then◌else◌, find, keep, update_where, Method, return, throw, throw_if, gets, modify, or_throw,
  when, ◌>>=◌, ◌>>◌,
}
use cobdata_back.Auth.Sessions.{
  Text, Date, User, Session, Invite, InviteStatus, accepted, ResetEntry, AuthState, create,
  find_by_refresh_token_hash, find_by_id, rotate_token, list_active, revoke, revoke_all_except,
  revoke_by_token_family, revoke_all,
}
use cobdata_back.Auth.Tokens.{
  AuthError, Password, Crypto, Draw, LoginResult, is_complex, claims_of, unauthorized, gone,
  unprocessable, conflict, not_found,
}

abbrev pub user_has_email : Text → User → Bool
user_has_email email u = u.email == email

abbrev pub user_has_id : Text → User → Bool
user_has_id k u = u.id == k

abbrev pub has_token : Text → Invite → Bool
has_token token i = i.token == token

abbrev pub invite_has_id : Text → Invite → Bool
invite_has_id k i = i.id == k

abbrev pub is_open_invite : Date → Invite → Bool
is_open_invite now i = elim i.status [
  | InviteStatus.pending ↦ not (ltb i.expires_at now)
  | _ ↦ false
]

abbrev pub update_user : Text → (User → User) → AuthState → AuthState
update_user k f s = record s { users = update_where (user_has_id k) f s.users }

-- An entry that Redis still has.
abbrev pub is_reset : Date → Text → ResetEntry → Bool
is_reset now hash e = e.hash == hash && ltb now e.expires_at

abbrev pub seven_days : ℕ
seven_days = 7 * 24 * 60 * 60 * 1000

module _ (crypto : Crypto) (draw : Draw) where
  -- A user who may log in with the password: an empty hash, like none, accepts no password.
  abbrev pub accepts : User → Password → Bool
  accepts user password = elim user.password_hash [
    | none ↦ false
    | some hash ↦ not (hash == 0) && crypto.verify hash password
  ]

  abbrev pub new_session : User → Option Text → Option Text → Session
  new_session user user_agent ip_address = record {
    id = draw.session_id;
    user_id = user.id;
    token_family = draw.token_family;
    refresh_token_hash = crypto.hash_token draw.token;
    user_agent = user_agent;
    ip_address = ip_address;
    is_revoked = false;
    created_at = draw.now;
    expires_at = draw.now + seven_days;
    last_used_at = draw.now;
  }

  unfoldable pub login :
      Text → Password → Option Text → Option Text → Method AuthState AuthError LoginResult
  login email password user_agent ip_address = do
    found ← gets λ s. find (user_has_email (crypto.lower_case email)) s.users
    user ← or_throw found unauthorized
    throw_if (not user.is_active) unauthorized
    throw_if (not (accepts user password)) unauthorized
    modify (create (new_session user user_agent ip_address))
    return (record { access_token = claims_of user draw.session_id; refresh_token = draw.token })

  -- From the session that the refresh token names on.
  unfoldable pub refresh_session : Session → Method AuthState AuthError LoginResult
  refresh_session session =
      if session.is_revoked
      then (do modify (revoke_by_token_family session.token_family); throw unauthorized)
      else if ltb session.expires_at draw.now
      then throw unauthorized
      else (do
        found ← gets λ s. find (user_has_id session.user_id) s.users
        elim found [
          | none ↦ do modify (revoke session.id); throw unauthorized
          | some user ↦
              if not user.is_active
              then (do modify (revoke session.id); throw unauthorized)
              else (do
                modify (rotate_token draw.now session.id (crypto.hash_token draw.token))
                return (record {
                  access_token = claims_of user session.id;
                  refresh_token = draw.token;
                }))
        ])

  unfoldable pub refresh : Text → Method AuthState AuthError LoginResult
  unfolding refresh_session
  refresh token = do
    found ← gets (find_by_refresh_token_hash (crypto.hash_token token))
    session ← or_throw found unauthorized
    refresh_session session

  unfoldable pub logout : Text → Method AuthState AuthError (Unit {0})
  logout token = do
    found ← gets (find_by_refresh_token_hash (crypto.hash_token token))
    elim found [
      | none ↦ return tt
      | some session ↦ when (not session.is_revoked) (modify (revoke session.id))
    ]

  unfoldable pub activate : Text → Password → Method AuthState AuthError (Unit {0})
  activate token password = do
    found ← gets λ s. find (has_token token) s.invites
    invite ← or_throw found gone
    throw_if (not (is_open_invite draw.now invite)) gone
    throw_if (not (is_complex password)) unprocessable
    modify (
        update_user invite.user_id λ u. record u {
          password_hash = some (crypto.hash_password draw.salt password);
          is_active = true;
        })
    modify λ s. record s {
      invites =
          update_where (invite_has_id invite.id) (λ i. record i { status = accepted }) s.invites;
    }

  abbrev pub set_password : Password → User → User
  set_password password u = record u {
    password_hash = some (crypto.hash_password draw.salt password);
    must_reset_password = false;
  }

  unfoldable pub change_password :
      Text → Text → Password → Password → Method AuthState AuthError (Unit {0})
  unfolding is_complex
  change_password user_id session_id current new = do
    found ← gets λ s. find (user_has_id user_id) s.users
    user ← or_throw found unauthorized
    throw_if (not (accepts user current)) unauthorized
    throw_if (not (is_complex new)) unprocessable
    modify (update_user user_id (set_password new))
    modify (revoke_all_except user_id session_id)

  -- The mail with the token is sent after this; a failure to send it is caught.
  unfoldable pub forgot_password : Text → Method AuthState AuthError (Unit {0})
  forgot_password email = do
    found ← gets λ s. find (user_has_email (crypto.lower_case email)) s.users
    elim found [
      | none ↦ return tt
      | some user ↦ when user.is_active (
          modify λ s. record s {
            resets =
                record {
                  hash = crypto.hash_token draw.token;
                  user_id = user.id;
                  expires_at = draw.now + 3600 * 1000;
                }
                ∷ keep (λ e. not (e.hash == crypto.hash_token draw.token)) s.resets;
          })
    ]

  unfoldable pub reset_password : Text → Password → Method AuthState AuthError (Unit {0})
  unfolding is_complex
  reset_password token new = do
    let hash = crypto.hash_token token
    found ← gets λ s. find (is_reset draw.now hash) s.resets
    entry ← or_throw found gone
    throw_if (not (is_complex new)) unprocessable
    modify (update_user entry.user_id (set_password new))
    modify λ s. record s { resets = keep (λ e. not (e.hash == hash)) s.resets }
    modify (revoke_all entry.user_id)

  unfoldable pub revoke_session : Text → Text → Text → Method AuthState AuthError (Unit {0})
  revoke_session user_id session_id current = do
    throw_if (session_id == current) conflict
    found ← gets (find_by_id session_id)
    session ← or_throw found not_found
    throw_if (not (session.user_id == user_id)) not_found
    modify (revoke session_id)

  unfoldable pub revoke_all_sessions : Text → Text → Method AuthState AuthError (Unit {0})
  revoke_all_sessions user_id current = modify (revoke_all_except user_id current)

  -- Each session, and whether it is the current one.
  unfoldable pub get_sessions : Text → Text → Method AuthState AuthError (List (Session × Bool))
  get_sessions user_id current = do
    sessions ← gets (list_active draw.now user_id)
    return (map (λ x. (x, x.id == current)) sessions)
