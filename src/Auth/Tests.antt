-- ===== src/Auth/Tests.antt =====
-- Runs of the authentication on one user.
use cobdata_back.Base.{
  ℕ, ◌≡◌, ◌≤◌, ◌⊎◌, ◌*◌, ◌+◌, refl, arith, true, false, some, none, [], ◌∷◌, ◌==◌, find, any, All,
  returns, throws,
}
use cobdata_back.Auth.Sessions.{User, Session, ResetEntry, AuthState, create}
use cobdata_back.Auth.Tokens.{
  Password, Crypto, Draw, LoginResult, unauthorized, gone, claims_of, is_complex,
}
use cobdata_back.Auth.Service.{
  user_has_email, accepts, new_session, is_reset, login, refresh, refresh_session, change_password,
  reset_password,
}
use cobdata_back.Auth.RateLimit.{handle_login, is_blocked, check_and_increment, unauthorized_401}
use cobdata_back.Auth.Attempts.{unblocked, check_and_increment-unblocked}
use cobdata_back.Auth.Revocation.{logs_in, refreshes, run, is_revoked_session, run-keeps_revoked}
use cobdata_back.Auth.Login.{Answers, handle_login-Answers}
use cobdata_back.Auth.Rotation.{refresh_replayed, login_then_refresh}
use cobdata_back.Auth.Passwords.{IsOutAll, login-outcome, reset_password_once}

-- The text of a password stands for its hash: enough to run the code.
abbrev text_of : Password → ℕ
text_of [] = 1
text_of (c ∷ cs) = c + 128 * text_of cs

abbrev crypto : Crypto
crypto = record {
  hash_password = λ salt p. text_of p;
  verify = λ hash p. hash == text_of p;
  hash_token = λ t. t + 1000;
  lower_case = λ t. t;
}

-- Passw0rd and Another1
abbrev old_password : Password
old_password = 80 ∷ 97 ∷ 115 ∷ 115 ∷ 119 ∷ 48 ∷ 114 ∷ 100 ∷ []

abbrev new_password : Password
new_password = 65 ∷ 110 ∷ 111 ∷ 116 ∷ 104 ∷ 101 ∷ 114 ∷ 49 ∷ []

abbrev user : User
user = record {
  id = 1;
  account_id = 7;
  creditor_id = none;
  email = 2;
  password_hash = some (text_of old_password);
  role = 3;
  is_active = true;
  must_reset_password = false;
}

abbrev session : Session
session = record {
  id = 4;
  user_id = 1;
  token_family = 5;
  refresh_token_hash = 1006;
  user_agent = none;
  ip_address = none;
  is_revoked = false;
  created_at = 10;
  expires_at = 900;
  last_used_at = 10;
}

abbrev lost : Session
lost = record session { id = 8; token_family = 9; refresh_token_hash = 1009; is_revoked = true }

abbrev state : AuthState
state = record {
  users = user ∷ [];
  sessions = session ∷ lost ∷ [];
  invites = [];
  resets = record { hash = 1011; user_id = 1; expires_at = 500 } ∷ [];
}

abbrev draw : Draw
draw = record { now = 100; session_id = 12; token_family = 13; token = 14; salt = 15 }

abbrev later : Draw
later = record draw { now = 200; session_id = 16; token = 17 }

abbrev logged_in : LoginResult
logged_in = record { access_token = claims_of user 4; refresh_token = 14 }

refreshed : (refresh crypto draw 6 state).0 ≡ returns logged_in
unfolding refresh refresh_session
refreshed = refl

changed : (change_password crypto draw 1 4 old_password new_password state).0 ≡ returns tt
unfolding change_password is_complex
changed = refl

was_reset : (reset_password crypto draw 11 new_password state).0 ≡ returns tt
unfolding reset_password is_complex
was_reset = refl

refuses : (handle_login crypto draw 50 2 new_password none none state []).0 ≡ unauthorized_401
unfolding handle_login is_blocked check_and_increment login
refuses = refl

run-keeps_revoked_example :
    any
      (is_revoked_session crypto 8)
      (run crypto
        ((draw, logs_in 2 old_password none none) ∷ (later, refreshes 9) ∷ [])
        state).sessions
    ≡ true
run-keeps_revoked_example =
    run-keeps_revoked crypto 8
      ((draw, logs_in 2 old_password none none) ∷ (later, refreshes 9) ∷ []) state refl

login-outcome_example :
    ((u : User) × (find (user_has_email 2) state.users ≡ some u)
      × (u.is_active ≡ true)
      × (accepts crypto draw u old_password ≡ true)
      × (login crypto draw 2 old_password none none state ≡ (
        returns (record { access_token = claims_of u 12; refresh_token = 14 }),
        create (new_session crypto draw u none none) state,
      )))
    ⊎ (login crypto draw 2 old_password none none state ≡ (throws unauthorized, state))
login-outcome_example = login-outcome crypto draw state 2 old_password none none

reset_password_once_example :
    let s' = (reset_password crypto draw 11 new_password state).1 in
    (reset_password crypto later 11 old_password s' ≡ (throws gone, s'))
    × ((entry : ResetEntry) × (find (is_reset 100 1011) state.resets ≡ some entry)
        × All (IsOutAll entry.user_id) s'.sessions)
reset_password_once_example =
    reset_password_once crypto draw later 11 new_password old_password state was_reset

login_then_refresh_example :
    let (r, s') = login crypto draw 2 old_password none none state in
    (r ≡ returns (record { access_token = claims_of user 12; refresh_token = 14 }))
    × ((refresh crypto later 14 s').0
        ≡ returns (record { access_token = claims_of user 12; refresh_token = 17 }))
login_then_refresh_example =
    login_then_refresh crypto draw later 2 old_password none none user state refl refl refl refl
      refl refl

refresh_replayed_example :
    let s' = (refresh crypto draw 6 state).1 in
    refresh crypto later 6 s' ≡ (throws unauthorized, s')
refresh_replayed_example =
    refresh_replayed crypto draw later 6 state logged_in (refl, (refl, tt)) refl refreshed

check_and_increment-unblocked_example : unblocked 2 (50 ∷ 60 ∷ 70 ∷ 80 ∷ 90 ∷ 100 ∷ []) [] ≤ 4
check_and_increment-unblocked_example =
    check_and_increment-unblocked 2 50 (60 ∷ 70 ∷ 80 ∷ 90 ∷ 100 ∷ []) [] refl
      (omega arith, (omega arith, (omega arith, (omega arith, (omega arith, tt)))))

handle_login-Answers_example :
    Answers 50 2 state [] (handle_login crypto draw 50 2 new_password none none state [])
handle_login-Answers_example = handle_login-Answers crypto draw 50 2 new_password none none state []
