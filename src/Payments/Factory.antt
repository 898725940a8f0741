-- ===== src/Payments/Factory.antt =====
-- src/payments/adapters/payment-provider.factory.ts and types.ts: the registered adapters and how one
-- is selected. What an adapter answers comes from the provider's server: it is a field of the
-- record `Adapter`, a parameter of every definition that calls it.
use cobdata_back.Base.{
  ℕ, Bool, false, ◌&&◌, Option, none, some, List, [], ◌∷◌, any, Outcome, returns, throws,
  if◌then◌else◌,
}
use cobdata_back.Payments.Model.{
  Text, Date, PaymentProviderType, PaymentMethod, PaymentChargeStatus, PaymentCharge, Artefacts,
  banco_do_brasil, same_method,
}

-- What the services throw: the exceptions of @nestjs/common, the errors of the adapter, and a
-- failure to decrypt the credentials.
pub data ServiceError : Type 0 where
  not_found conflict unprocessable bad_request : ServiceError
  -- UnprocessableEntityException with the failure code and the id of the failed charge.
  not_issued : Text → Text → ServiceError
  timeout rate_limited : ServiceError
  -- BbProviderError with its failure code and message.
  provider_error : Text → Text → ServiceError
  -- Any other error, with its message.
  other_error : Text → ServiceError
  -- P2002 and P2025 of the database.
  unique_violation record_not_found : ServiceError

-- interface PaymentCapability
pub record PaymentCapability : Type 0 where
  pub method : PaymentMethod
  pub supported : Bool

-- interface PaymentChargeUpdate
pub record PaymentChargeUpdate : Type 0 where
  pub status : PaymentChargeStatus
  pub external_status : Option Text
  pub paid_at : Option Date
  pub failure_code : Option Text
  pub failure_message : Option Text
  pub provider_payload : Option Text

-- interface IssuedPaymentCharge
pub record IssuedPaymentCharge : Type 0 where
  pub external_id : Option Text
  pub external_status : Option Text
  pub txid : Option Text
  pub artefacts : Artefacts
  pub issued_at : Option Date
  pub expires_at : Option Date
  pub provider_payload : Option Text

-- interface IssuePaymentChargeInput, less the creditor's and the debtor's contact data.
pub record IssueInput : Type 0 where
  pub contract_id : Text
  pub method : PaymentMethod
  pub amount : ℕ
  pub due_date : Date
  pub idempotency_key : Text
  pub txid : Option Text
  pub expires_at : Option Date
  pub debtor_name : Text
  pub debtor_document : Text

-- interface PaymentProviderAdapter. A `config` is what `decryptCredentials` returns.
pub record Adapter : Type 0 where
  pub provider_type : PaymentProviderType
  pub capabilities : List PaymentCapability
  pub issue : IssueInput → Text → Outcome ServiceError IssuedPaymentCharge
  pub fetch_status : Option (PaymentCharge → Text → Outcome ServiceError PaymentChargeUpdate)

-- `adaptersMap.get`: of two adapters of one type the later one is in the map.
abbrev pub adapter_of : PaymentProviderType → List Adapter → Option Adapter
adapter_of t [] = none
adapter_of banco_do_brasil (a ∷ rest) = elim (adapter_of banco_do_brasil rest) [
  | none ↦ some a
  | some later ↦ some later
]

unfoldable pub get : List Adapter → PaymentProviderType → Outcome ServiceError Adapter
get adapters t = elim (adapter_of t adapters) [ none ↦ throws not_found | some a ↦ returns a ]

abbrev pub offers : PaymentMethod → PaymentCapability → Bool
offers m c = same_method c.method m && c.supported

unfoldable pub supports_method : List Adapter → PaymentProviderType → PaymentMethod → Bool
supports_method adapters t m = elim (adapter_of t adapters) [
  | none ↦ false
  | some a ↦ any (offers m) a.capabilities
]

unfoldable pub get_and_validate_method :
    List Adapter → PaymentProviderType → PaymentMethod → Outcome ServiceError Adapter
unfolding get
get_and_validate_method adapters t m = elim (get adapters t) [
  | throws e ↦ throws e
  | returns a ↦ if any (offers m) a.capabilities then returns a else throws unprocessable
]
