-- ===== src/Auth/Login.antt =====
-- src/auth/auth.controller.ts, `login`: what each answer says of the state and of the counter.
use cobdata_back.Base.{
  ℕ, ◌≡◌, ◌≤◌, ◌+◌, refl, arith, Option, none, List, [], ◌∷◌, find, find-passes, ==_refl,
  Option-cases, inl, inr,
}
use cobdata_back.Auth.Sessions.{Text, AuthState}
use cobdata_back.Auth.Tokens.{Crypto, Draw, Password}
use cobdata_back.Auth.RateLimit.{
  Counter, LoginResponse, accepted, unauthorized_401, too_many_429, rethrown, get, del, live_key,
  increment, is_blocked, check_and_increment, handle_login,
}
use cobdata_back.Auth.Passwords.{login-outcome}

forgotten_key :
    (now : ℕ) (key : Text) (cs : List Counter) → find (live_key now key) (del key cs) ≡ none
forgotten_key now key [] = refl
forgotten_key now key (c ∷ cs) = ground (arith, forgotten_key now key cs)

counted :
    (now : ℕ) (key : Text) (cs : List Counter)
    → get now key (increment now key cs) ≡ get now key cs + 1
counted now key cs = elim (Option-cases (find (live_key now key) cs)) [
  | inl e ↦ ground (arith, ==_refl key)
  | inr (c, e) ↦ ground (arith, find-passes (live_key now key) cs c e)
]

-- The state and the counters that an answer comes with.
abbrev pub Answers :
    ℕ → Text → AuthState → List Counter → LoginResponse × AuthState × List Counter → Type 0
Answers now key s cs (accepted result, s', cs') = (get now key cs ≤ 4) × (get now key cs' ≡ 0)
Answers now key s cs (unauthorized_401, s', cs') =
    (s' ≡ s) × (get now key cs' ≡ get now key cs + 1) × (get now key cs' ≤ 4)
Answers now key s cs (too_many_429 seconds, s', cs') = (s' ≡ s) × (4 ≤ get now key cs)
Answers now key s cs (rethrown e, s', cs') = ⊥

module _ (crypto : Crypto) (draw : Draw) (now : ℕ) (email : Text) (password : Password)
    (user_agent ip_address : Option Text) (s : AuthState) (cs : List Counter) where
  -- A login that is accepted comes before the fifth failure, and forgets the failures; one that is
  -- refused with 401 changes nothing but the counter, which it raises by one, to four at most; one
  -- that is refused with 429 changes no user and no session, and comes after four failures at
  -- least; no other answer is given.
  pub handle_login-Answers :
      Answers now
        (crypto.lower_case email)
        s
        cs
        (handle_login crypto draw now email password user_agent ip_address s cs)
  unfolding handle_login is_blocked check_and_increment
  handle_login-Answers = elim (login-outcome crypto draw s email password user_agent ip_address) [
    | inl (user, found, active, right, e) ↦
        ground (arith, forgotten_key now (crypto.lower_case email) cs, e)
    | inr e ↦ ground (arith, counted now (crypto.lower_case email) cs, e)
  ]
