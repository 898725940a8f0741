-- ===== src/Auth/Tokens.antt =====
-- src/auth/services/password.service.ts and src/auth/services/token.service.ts: passwords and the
-- claims of a token. Argon2, SHA-256, the JWT library and the random tokens are parameters.
use cobdata_back.Base.{
  ℕ, Bool, false, not, ◌&&◌, Option, none, some, List, ltb, leb, ◌==◌, if◌then◌else◌, length, any,
}
use cobdata_back.Auth.Sessions.{Text, Date, User}

pub data AuthError : Type 0 where
  unauthorized gone unprocessable conflict not_found : AuthError

-- A password is given by the codes of its characters.
abbrev pub Password : Type 0
Password = List ℕ

-- The first argument of `hash_password` is the salt.
pub record Crypto : Type 0 where
  pub hash_password : Text → Password → Text
  pub verify : Text → Password → Bool
  pub hash_token : Text → Text
  pub lower_case : Text → Text

-- What a request draws at random, and its time in milliseconds.
pub record Draw : Type 0 where
  pub now : Date
  pub session_id : Text
  pub token_family : Text
  pub token : Text
  pub salt : Text

-- The payload of an access token.
pub record AccessClaims : Type 0 where
  pub sub : Text
  pub account_id : Text
  pub creditor_id : Option Text
  pub role : Text
  pub session_id : Text
  pub must_reset_password : Bool

pub record LoginResult : Type 0 where
  pub access_token : AccessClaims
  pub refresh_token : Text

abbrev pub between : ℕ → ℕ → ℕ → Bool
between low high c = leb low c && leb c high

-- `validateComplexity(password) === null`
unfoldable pub is_complex : Password → Bool
is_complex password =
    if ltb (length password) 8
    then false
    else if not (any (between 65 90) password)
    then false
    else if not (any (between 97 122) password)
    then false
    else any (between 48 57) password

-- `if (payload.creditorId)`: the empty text is left out.
abbrev pub claimed_creditor : Option Text → Option Text
claimed_creditor none = none
claimed_creditor (some k) = if k == 0 then none else some k

abbrev pub claims_of : User → Text → AccessClaims
claims_of user session_id = record {
  sub = user.id;
  account_id = user.account_id;
  creditor_id = claimed_creditor user.creditor_id;
  role = user.role;
  session_id = session_id;
  must_reset_password = user.must_reset_password;
}
