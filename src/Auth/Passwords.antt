-- ===== src/Auth/Passwords.antt =====
-- src/auth/auth.service.ts: logins, and the change and the reset of a password.
use cobdata_back.Base.{
  ◌≡◌, ◌⊎◌, refl, true, false, not, ◌&&◌, Option, none, some, List, [], ◌∷◌, arith, find, keep,
  update_where, All, All-updated, ◌==◌, returns, throws, Option-cases, Bool-cases, inl, inr,
}
use cobdata_back.Auth.Sessions.{
  Text, Date, User, Session, ResetEntry, AuthState, create, revoke_all, revoke_all_except, revoked,
}
use cobdata_back.Auth.Tokens.{unauthorized, gone, Password, Crypto, Draw, claims_of}
use cobdata_back.Auth.Service.{
  user_has_email, user_has_id, accepts, new_session, is_reset, login, change_password,
  reset_password, set_password, update_user,
}

-- The sessions of the user, the current one apart.
abbrev pub IsOut : Text → Text → Session → Type 0
IsOut user_id kept x = (x.user_id == user_id) ≡ true → (x.id == kept) ≡ false → x.is_revoked ≡ true

abbrev pub IsOutAll : Text → Session → Type 0
IsOutAll user_id x = (x.user_id == user_id) ≡ true → x.is_revoked ≡ true

module _ (crypto : Crypto) (draw : Draw) (s : AuthState) where
  -- A login either opens one session for an active user with that address and password, or is
  -- refused in one and the same way, whatever the reason, and changes nothing.
  pub login-outcome :
      (email : Text) (password : Password) (user_agent ip_address : Option Text)
      → ((user : User) × (find (user_has_email (crypto.lower_case email)) s.users ≡ some user)
          × (user.is_active ≡ true)
          × (accepts crypto draw user password ≡ true)
          × (login crypto draw email password user_agent ip_address s ≡ (
            returns (record {
              access_token = claims_of user draw.session_id;
              refresh_token = draw.token;
            }),
            create (new_session crypto draw user user_agent ip_address) s,
          )))
        ⊎ (login crypto draw email password user_agent ip_address s ≡ (throws unauthorized, s))
  unfolding login
  login-outcome email password user_agent ip_address =
      elim (Option-cases (find (user_has_email (crypto.lower_case email)) s.users)) [
        | inl e ↦ inr (ground arith)
        | inr (user, e) ↦ elim (Bool-cases user.is_active) [
          | inr inactive ↦ inr (ground arith)
          | inl active ↦ elim (Bool-cases (accepts crypto draw user password)) [
            | inr wrong ↦ inr (ground arith)
            | inl right ↦ inl (user, e, active, right, ground arith)
          ]
        ]
      ]

  change-revokes :
      (user_id session_id : Text) (t : AuthState)
      → All (IsOut user_id session_id) (revoke_all_except user_id session_id t).sessions
  unfolding revoke_all_except
  change-revokes user_id session_id t =
      All-updated (IsOut user_id session_id)
        (λ x. x.user_id == user_id && not (x.id == session_id) && not x.is_revoked) revoked
        (λ x h a b. refl) (λ x h a b. ground arith) t.sessions

  reset-revokes :
      (user_id : Text) (t : AuthState) → All (IsOutAll user_id) (revoke_all user_id t).sessions
  unfolding revoke_all
  reset-revokes user_id t =
      All-updated (IsOutAll user_id) (λ x. x.user_id == user_id && not x.is_revoked) revoked
        (λ x h a. refl) (λ x h a. ground arith) t.sessions

  change-state :
      (user_id session_id : Text) (current new : Password)
      → (change_password crypto draw user_id session_id current new s).0 ≡ returns tt
      → (change_password crypto draw user_id session_id current new s).1
        ≡ revoke_all_except user_id session_id
            (update_user user_id (set_password crypto draw new) s)
  unfolding change_password
  change-state user_id session_id current new returned = ground arith

  -- A change of password that succeeds revokes every session of the user but the current one, and
  -- gives the user the new password and no duty to reset it.
  pub change_password-effect :
      (user_id session_id : Text) (current new : Password)
      → (change_password crypto draw user_id session_id current new s).0 ≡ returns tt
      → let s' = (change_password crypto draw user_id session_id current new s).1 in
        All (IsOut user_id session_id) s'.sessions
        × (s'.users ≡ update_where (user_has_id user_id) (set_password crypto draw new) s.users)
  unfolding revoke_all_except
  change_password-effect user_id session_id current new returned =
      rw (change-state user_id session_id current new returned) (
        change-revokes user_id session_id (update_user user_id (set_password crypto draw new) s),
        refl,
      )

  -- What a reset leaves.
  abbrev used_up : ResetEntry → Text → Password → AuthState
  used_up entry token new =
      let t = update_user entry.user_id (set_password crypto draw new) s in
      record t { resets = keep (λ e. not (e.hash == crypto.hash_token token)) s.resets }

  abbrev after_reset : ResetEntry → Text → Password → AuthState
  after_reset entry token new = revoke_all entry.user_id (used_up entry token new)

  reset-state :
      (token : Text) (new : Password)
      → (reset_password crypto draw token new s).0 ≡ returns tt
      → (entry : ResetEntry) × (find (is_reset draw.now (crypto.hash_token token)) s.resets
          ≡ some entry)
        × ((reset_password crypto draw token new s).1 ≡ after_reset entry token new)
  unfolding reset_password
  reset-state token new returned =
      elim (Option-cases (find (is_reset draw.now (crypto.hash_token token)) s.resets)) [
        | inl e ↦ ground arith
        | inr (entry, e) ↦ (entry, e, ground arith)
      ]

forgotten :
    (now : Date) (hash : Text) (xs : List ResetEntry)
    → find (is_reset now hash) (keep (λ e. not (e.hash == hash)) xs) ≡ none
forgotten now hash [] = refl
forgotten now hash (x ∷ xs) = ground (arith, forgotten now hash xs)

module _ (crypto : Crypto) (draw draw' : Draw) (token : Text) (new new' : Password)
    (s : AuthState) where
  reset_gone :
      (t : AuthState)
      → find (is_reset draw'.now (crypto.hash_token token)) t.resets ≡ none
      → reset_password crypto draw' token new' t ≡ (throws gone, t)
  unfolding reset_password
  reset_gone t h = ground arith

  -- A reset that succeeds uses its token up: the token, presented again at any time and with any
  -- password, is gone and changes nothing. It leaves no session of the user that is not revoked.
  pub reset_password_once :
      (reset_password crypto draw token new s).0 ≡ returns tt
      → let s' = (reset_password crypto draw token new s).1 in
        (reset_password crypto draw' token new' s' ≡ (throws gone, s'))
        × ((entry : ResetEntry) × (find (is_reset draw.now (crypto.hash_token token)) s.resets
              ≡ some entry)
            × All (IsOutAll entry.user_id) s'.sessions)
  unfolding revoke_all
  reset_password_once returned =
      let (entry, found, e) = reset-state crypto draw s token new returned in
      rw e (
        reset_gone (after_reset crypto draw s entry token new)
            (forgotten draw'.now (crypto.hash_token token) s.resets),
        (
          entry,
          found,
          reset-revokes crypto draw s entry.user_id (used_up crypto draw s entry token new),
        ),
      )
