-- ===== src/Auth/RateLimit.antt =====
-- src/auth/services/rate-limit.service.ts, and `login` of src/auth/auth.controller.ts. A counter is a key
-- `login:attempts:${email}` of Redis, which goes when its time has come; times are in seconds here.
use cobdata_back.Base.{
  ℕ, ◌+◌, ◌-◌, Bool, true, false, not, ◌&&◌, Option, none, some, List, ◌∷◌, ltb, leb, ◌==◌,
  if◌then◌else◌, find, keep, update_where, returns, throws,
}
use cobdata_back.Auth.Sessions.{Text, AuthState}
use cobdata_back.Auth.Tokens.{AuthError, Password, Crypto, Draw, LoginResult}
use cobdata_back.Auth.Service.{login}

pub record Counter : Type 0 where
  pub key : Text
  pub count : ℕ
  pub until : Option ℕ

pub record RateLimitResult : Type 0 where
  pub blocked : Bool
  pub retry_after_seconds : Option ℕ

abbrev pub max_attempts : ℕ
max_attempts = 5

abbrev pub window_seconds : ℕ
window_seconds = 900

abbrev pub is_there : ℕ → Counter → Bool
is_there now c = elim c.until [ none ↦ true | some t ↦ ltb now t ]

-- Redis: GET, INCR, EXPIRE, TTL and DEL of a key.
abbrev pub live_key : ℕ → Text → Counter → Bool
live_key now key c = c.key == key && is_there now c

abbrev pub get : ℕ → Text → List Counter → ℕ
get now key cs = elim (find (live_key now key) cs) [ none ↦ 0 | some c ↦ c.count ]

abbrev pub del : Text → List Counter → List Counter
del key cs = keep (λ c. not (c.key == key)) cs

abbrev pub incr : ℕ → Text → List Counter → List Counter
incr now key cs = elim (find (live_key now key) cs) [
  | none ↦ record { key = key; count = 1; until = none } ∷ del key cs
  | some c ↦ record c { count = c.count + 1 } ∷ del key cs
]

abbrev pub expire : ℕ → Text → List Counter → List Counter
expire at key cs = update_where (λ c. c.key == key) (λ c. record c { until = some at }) cs

-- `ttl > 0 ? ttl : this.WINDOW_SECONDS`
abbrev pub retry_after : ℕ → Text → List Counter → ℕ
retry_after now key cs = elim (find (live_key now key) cs) [
  | none ↦ window_seconds
  | some c ↦ elim c.until [
    | none ↦ window_seconds
    | some t ↦ if ltb now t then t - now else window_seconds
  ]
]

abbrev pub blocked_for : ℕ → RateLimitResult
blocked_for seconds = record { blocked = true; retry_after_seconds = some seconds }

abbrev pub not_blocked : RateLimitResult
not_blocked = record { blocked = false; retry_after_seconds = none }

unfoldable pub is_blocked : ℕ → Text → List Counter → RateLimitResult
is_blocked now key cs =
    if leb max_attempts (get now key cs) then blocked_for (retry_after now key cs) else not_blocked

-- INCR, and the time to live at the first attempt.
abbrev pub increment : ℕ → Text → List Counter → List Counter
increment now key cs =
    let cs' = incr now key cs in
    if get now key cs' == 1 then expire (now + window_seconds) key cs' else cs'

unfoldable pub check_and_increment : ℕ → Text → List Counter → RateLimitResult × List Counter
check_and_increment now key cs =
    if leb max_attempts (get now key cs)
    then (blocked_for (retry_after now key cs), cs)
    else (let cs' = increment now key cs in
        if leb max_attempts (get now key cs')
        then (blocked_for (retry_after now key cs'), cs')
        else (not_blocked, cs'))

-- The answer to a login: the tokens, 401, 429, or an error that is thrown on.
pub data LoginResponse : Type 0 where
  accepted : LoginResult → LoginResponse
  unauthorized_401 : LoginResponse
  too_many_429 : Option ℕ → LoginResponse
  rethrown : AuthError → LoginResponse

module _ (crypto : Crypto) (draw : Draw) (seconds : ℕ) where
  unfoldable pub handle_login :
      Text
      → Password
      → Option Text
      → Option Text
      → AuthState
      → List Counter
      → LoginResponse × AuthState × List Counter
  unfolding is_blocked check_and_increment login
  handle_login email password user_agent ip_address s cs =
      let key = crypto.lower_case email in
      let check = is_blocked seconds key cs in
      if check.blocked
      then (too_many_429 check.retry_after_seconds, s, cs)
      else (let (r, s') = login crypto draw email password user_agent ip_address s in
          elim r [
            | returns result ↦ (accepted result, s', del key cs)
            | throws e ↦ elim e [
              | AuthError.unauthorized ↦
                  let (limit, cs') = check_and_increment seconds key cs in
                  if limit.blocked
                  then (too_many_429 limit.retry_after_seconds, s', cs')
                  else (unauthorized_401, s', cs')
              | other ↦ (rethrown other, s', cs)
            ]
          ])
