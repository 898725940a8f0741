-- ===== src/Auth/Rotation.antt =====
-- src/auth/auth.service.ts, `refresh`: the rotation of a refresh token.
use cobdata_back.Base.{
  sym, ℕ, ◌≡◌, ◌+◌, refl, Bool, true, false, Option, none, some, List, [], ◌∷◌, arith, any, find,
  find-eq-none, find-append_new, update_where, Distinct, ◌==◌, ==_refl, ltb, returns, throws,
  Option-cases, Bool-cases, inl, inr,
}
use cobdata_back.Auth.Sessions.{
  Text, User, Session, AuthState, session_has_id, has_hash, rotate_token, create,
}
use cobdata_back.Auth.Tokens.{unauthorized, Password, Crypto, Draw, LoginResult, claims_of}
use cobdata_back.Auth.Service.{
  user_has_id, user_has_email, accepts, new_session, seven_days, login, refresh, refresh_session,
}

abbrev hash_of : Session → Text
hash_of x = x.refresh_token_hash

-- Rows that `f` gives the hash `new`.
module _ (k new : ℕ) (q : Session → Bool) (f : Session → Session)
    (sets : (x : Session) → hash_of (f x) ≡ new) (ne : (new == k) ≡ false) where
  absent_stays :
      (xs : List Session)
      → any (has_hash k) xs ≡ false
      → any (has_hash k) (update_where q f xs) ≡ false
  absent_stays [] h = refl
  absent_stays (y ∷ ys) h = ground (arith, sets y, absent_stays ys)

  replaced_gone :
      (xs : List Session) (x : Session)
      → Distinct hash_of xs
      → find (has_hash k) xs ≡ some x
      → q x ≡ true
      → any (has_hash k) (update_where q f xs) ≡ false
  replaced_gone [] x d found passes = refl
  replaced_gone (y ∷ ys) x d found passes = elim (Bool-cases (hash_of y == k)) [
    | inl e ↦
        let same : hash_of y ≡ k = ground arith in
        let absent : any (has_hash k) ys ≡ false = rw (sym same) d.0 in
        ground (arith, sets y, absent_stays ys absent)
    | inr e ↦ ground (arith, sets y, replaced_gone ys x)
  ]

module _ (crypto : Crypto) (draw : Draw) (token : Text) (s : AuthState) where
  refresh_missing :
      find (has_hash (crypto.hash_token token)) s.sessions ≡ none
      → refresh crypto draw token s ≡ (throws unauthorized, s)
  unfolding refresh
  refresh_missing h = ground arith

  refresh_found :
      (session : Session)
      → find (has_hash (crypto.hash_token token)) s.sessions ≡ some session
      → refresh crypto draw token s ≡ refresh_session crypto draw session s
  unfolding refresh
  refresh_found session h = ground arith

  refresh_session_rotates :
      (session : Session) (r : LoginResult)
      → (refresh_session crypto draw session s).0 ≡ returns r
      → (refresh_session crypto draw session s).1
        ≡ rotate_token draw.now session.id (crypto.hash_token draw.token) s
  unfolding refresh_session
  refresh_session_rotates session r h = ground arith

  refresh_session_returns :
      (session : Session) (user : User)
      → session.is_revoked ≡ false
      → ltb session.expires_at draw.now ≡ false
      → find (user_has_id session.user_id) s.users ≡ some user
      → user.is_active ≡ true
      → (refresh_session crypto draw session s).0
        ≡ returns (record { access_token = claims_of user session.id; refresh_token = draw.token })
  unfolding refresh_session
  refresh_session_returns session user a b c d = ground arith

module _ (crypto : Crypto) (draw draw' : Draw) (token : Text) (s : AuthState) where
  -- A refresh that succeeds rotates the token: the old one, presented again, is refused like an
  -- unknown one, and the state stays as it is, the session with its new token included.
  pub refresh_replayed :
      (result : LoginResult)
      → Distinct (λ (x : Session). x.refresh_token_hash) s.sessions
      → (crypto.hash_token draw.token == crypto.hash_token token) ≡ false
      → (refresh crypto draw token s).0 ≡ returns result
      → let s' = (refresh crypto draw token s).1 in
        refresh crypto draw' token s' ≡ (throws unauthorized, s')
  refresh_replayed result distinct is_new returned =
      elim (Option-cases (find (has_hash (crypto.hash_token token)) s.sessions)) [
        | inl e ↦
            rw (refresh_missing crypto draw token s e) (refresh_missing crypto draw' token s e)
        | inr (x, e) ↦
            let starts = refresh_found crypto draw token s x e in
            let rotates =
              refresh_session_rotates crypto draw token s x result (rw (sym starts) returned) in
            let id_passes = ==_refl x.id in
            let gone_ =
              replaced_gone (crypto.hash_token token) (crypto.hash_token draw.token)
                (session_has_id x.id)
                (λ y. record y {
                  refresh_token_hash = crypto.hash_token draw.token;
                  last_used_at = draw.now;
                })
                (λ y. refl) is_new s.sessions x distinct e id_passes in
            rw (starts, rotates)
              (refresh_missing crypto draw' token
                (rotate_token draw.now x.id (crypto.hash_token draw.token) s)
                (find-eq-none (has_hash (crypto.hash_token token))
                  (rotate_token draw.now x.id (crypto.hash_token draw.token) s).sessions gone_))
      ]

module _ (crypto : Crypto) (draw draw' : Draw) (email : Text) (password : Password)
    (user_agent ip_address : Option Text) (user : User) (s : AuthState)
    (found : find (user_has_email (crypto.lower_case email)) s.users ≡ some user)
    (active : user.is_active ≡ true) (accepted : accepts crypto draw user password ≡ true)
    (found_id : find (user_has_id user.id) s.users ≡ some user)
    (is_new : any (has_hash (crypto.hash_token draw.token)) s.sessions ≡ false)
    (in_time : ltb (draw.now + seven_days) draw'.now ≡ false) where
  logs_in : login crypto draw email password user_agent ip_address s ≡ (
    returns (record { access_token = claims_of user draw.session_id; refresh_token = draw.token }),
    create (new_session crypto draw user user_agent ip_address) s,
  )
  unfolding login
  logs_in = rw (login, found, active, accepted) refl

  -- A login with the right password gives a refresh token that, within seven days, refreshes the
  -- session of that login for the same user.
  pub login_then_refresh :
      let (r, s') = login crypto draw email password user_agent ip_address s in
      (r
        ≡ returns
            (record { access_token = claims_of user draw.session_id; refresh_token = draw.token }))
      × ((refresh crypto draw' draw.token s').0
          ≡ returns (record {
            access_token = claims_of user draw.session_id;
            refresh_token = draw'.token;
          }))
  login_then_refresh =
      let x = new_session crypto draw user user_agent ip_address in
      let s' = create x s in
      let e =
        find-append_new (has_hash (crypto.hash_token draw.token)) s.sessions x is_new
          (==_refl (crypto.hash_token draw.token)) in
      rw logs_in (
        refl,
        rw (refresh_found crypto draw' draw.token s' x e) (
            refresh_session_returns crypto draw' draw.token s' x user refl in_time found_id active),
      )
