-- ===== src/Auth/Revocation.antt =====
-- Sessions that are revoked: no request brings one back, and which ones a request revokes.
use cobdata_back.Base.{
  Option, ◌≡◌, Bool, true, ◌&&◌, List, [], ◌∷◌, arith, any, any-append, any_kept, update_where,
  ◌==◌,
}
use cobdata_back.Auth.Sessions.{
  rotate_token, Text, Date, Session, AuthState, revoke, revoke_all, revoke_all_except,
  revoke_by_token_family, session_has_id, revoked,
}
use cobdata_back.Auth.Tokens.{Password, Crypto, Draw}
use cobdata_back.Auth.Service.{
  login, refresh, refresh_session, logout, activate, change_password, forgot_password,
  reset_password, revoke_session, revoke_all_sessions,
}

-- The requests that change the state.
pub data Request : Type 0 where
  logs_in : Text → Password → Option Text → Option Text → Request
  refreshes : Text → Request
  logs_out : Text → Request
  activates : Text → Password → Request
  changes_password : Text → Text → Password → Password → Request
  forgets_password : Text → Request
  resets_password : Text → Password → Request
  revokes : Text → Text → Text → Request
  revokes_all : Text → Text → Request

module _ (crypto : Crypto) where
  unfoldable pub handle : Draw → Request → AuthState → AuthState
  unfolding login refresh logout activate change_password forgot_password reset_password
      revoke_session revoke_all_sessions
  handle draw (logs_in email password user_agent ip_address) s =
      (login crypto draw email password user_agent ip_address s).1
  handle draw (refreshes token) s = (refresh crypto draw token s).1
  handle draw (logs_out token) s = (logout crypto draw token s).1
  handle draw (activates token password) s = (activate crypto draw token password s).1
  handle draw (changes_password user session current new) s =
      (change_password crypto draw user session current new s).1
  handle draw (forgets_password email) s = (forgot_password crypto draw email s).1
  handle draw (resets_password token new) s = (reset_password crypto draw token new s).1
  handle draw (revokes user session current) s =
      (revoke_session crypto draw user session current s).1
  handle draw (revokes_all user current) s = (revoke_all_sessions crypto draw user current s).1

  unfoldable pub run : List (Draw × Request) → AuthState → AuthState
  unfolding handle
  run [] s = s
  run ((draw, request) ∷ rest) s = run rest (handle draw request s)

  abbrev pub is_revoked_session : Text → Session → Bool
  is_revoked_session k x = x.id == k && x.is_revoked

  module _ (k : Text) where
    abbrev Stays : AuthState → AuthState → Type 0
    Stays s s' =
        any (is_revoked_session k) s.sessions ≡ true → any (is_revoked_session k) s'.sessions ≡ true

    revoking-Stays :
        (p : Session → Bool) (xs : List Session)
        → any (is_revoked_session k) xs ≡ true
        → any (is_revoked_session k) (update_where p revoked xs) ≡ true
    revoking-Stays p xs = any_kept (is_revoked_session k) p revoked (λ x h. ground arith) xs

    rotating-Stays :
        (now : Date) (i hash : Text) (s : AuthState) → Stays s (rotate_token now i hash s)
    rotating-Stays now i hash s =
        any_kept (is_revoked_session k) (session_has_id i)
          (λ x. record x { refresh_token_hash = hash; last_used_at = now }) (λ x h. h) s.sessions

    refresh_session-Stays :
        (draw : Draw) (x : Session) (s : AuthState) → Stays s (refresh_session crypto draw x s).1
    unfolding refresh_session revoke revoke_by_token_family
    refresh_session-Stays draw x s h = grind (arith, revoking-Stays, rotating-Stays)

    handle-Stays : (draw : Draw) (r : Request) (s : AuthState) → Stays s (handle draw r s)
    unfolding handle login refresh logout activate change_password forgot_password reset_password
        revoke_session revoke_all_sessions revoke revoke_all revoke_all_except
        revoke_by_token_family
    handle-Stays draw (logs_in email password user_agent ip_address) s h = grind (arith, any-append)
    handle-Stays draw (refreshes token) s h = grind (arith, refresh_session-Stays)
    handle-Stays draw (logs_out token) s h = grind (arith, revoking-Stays)
    handle-Stays draw (activates token password) s h = grind arith
    handle-Stays draw (changes_password user session current new) s h =
        grind (arith, revoking-Stays)
    handle-Stays draw (forgets_password email) s h = grind arith
    handle-Stays draw (resets_password token new) s h = grind (arith, revoking-Stays)
    handle-Stays draw (revokes user session current) s h = grind (arith, revoking-Stays)
    handle-Stays draw (revokes_all user current) s h = grind (arith, revoking-Stays)

  -- A session that is revoked stays so, whatever requests follow, whether they succeed or fail.
  pub run-keeps_revoked :
      (k : Text) (requests : List (Draw × Request)) (s : AuthState)
      → any (is_revoked_session k) s.sessions ≡ true
      → any (is_revoked_session k) (run requests s).sessions ≡ true
  unfolding run
  run-keeps_revoked k [] s h = h
  run-keeps_revoked k ((draw, request) ∷ rest) s h =
      run-keeps_revoked k rest (handle draw request s) (handle-Stays k draw request s h)
