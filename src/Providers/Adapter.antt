-- ===== src/Providers/Adapter.antt =====
-- src/providers/adapters/serasa-lnop.adapter.ts and the payloads of
-- src/providers/adapters/provider-adapter.interface.ts. What the remote server answers to each
-- attempt is a parameter.
use cobdata_back.Base.{
  ℕ, zero, suc, ◌+◌, Bool, ◌&&◌, ◌||◌, Option, none, some, List, [], ltb, leb, ◌==◌, if◌then◌else◌,
}
use cobdata_back.Contracts.{Text, Date}

-- The text of `wallet` in a payload: a wallet of Serasa's portal, or PRE_CALCULADA.
pub data PayloadWallet : Type 0 where
  portal : Text → PayloadWallet
  pre_calculada : PayloadWallet

-- The members of `offer` and `debtOrigin` in interface DebtPayload.
pub record Offer : Type 0 where
  pub value : ℕ
  pub due_days_first_installment : ℕ
  pub max_installments : ℕ

pub record DebtOrigin : Type 0 where
  pub name : Text
  pub document : Text

pub record DebtPayload : Type 0 where
  pub operation_item_id : Text
  pub document : Text
  pub contract_number : Text
  pub wallet : PayloadWallet
  pub debt_type : Text
  pub occurrence_date : Date
  pub debt_value : ℕ
  pub offer : Option Offer
  pub debt_origin : Option DebtOrigin

pub record RemovePayload : Type 0 where
  pub operation_item_id : Text
  pub id : Option Text

pub record ProviderConfig : Type 0 where
  pub api_key : Text
  pub production : Bool

-- `error` is its code, if the response has one; the status 0 stands for a network error.
pub record SendResult : Type 0 where
  pub http_status : ℕ
  pub transaction_id : Option Text
  pub debt_ids : List (Option Text)
  pub error : Option Text

pub data Request : Type 0 where
  sends : List DebtPayload → Request
  removes : List RemovePayload → Request

abbrev pub is_success : ℕ → Bool
is_success status = leb 200 status && ltb status 300

abbrev pub max_retries : ℕ
max_retries = 3

abbrev pub is_retryable : ℕ → Bool
is_retryable status = status == 429 || (leb 500 status && leb status 599)

abbrev pub network_error : SendResult
network_error = record { http_status = 0; transaction_id = none; debt_ids = []; error = none }

-- `doRequest` at each attempt; `none` where it throws.
abbrev pub Remote : Type 0
Remote = ProviderConfig → Request → ℕ → Option SendResult

-- The rounds of the loop from an attempt on, with the result that stands if no round returns.
unfoldable pub retry_from : (ℕ → Option SendResult) → ℕ → ℕ → SendResult → SendResult
retry_from answer zero attempt last_error = last_error
retry_from answer (suc left) attempt last_error = elim (answer attempt) [
  | none ↦ retry_from answer left (attempt + 1) network_error
  | some r ↦
      let again = retry_from answer left (attempt + 1) r in
      if is_success r.http_status
      then r
      else if is_retryable r.http_status && ltb attempt max_retries
      then again
      else r
]

unfoldable pub execute_with_retry : (ℕ → Option SendResult) → SendResult
execute_with_retry answer = retry_from answer max_retries 1 network_error

unfoldable pub send : Remote → ProviderConfig → Request → SendResult
send remote config request = execute_with_retry (remote config request)
