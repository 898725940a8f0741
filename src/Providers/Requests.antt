-- ===== src/Providers/Requests.antt =====
-- src/providers/processors/operation.processor.ts: the payloads of the requests of a batch, and the
-- configuration of the provider.
use cobdata_back.Base.{
  Bool, Option, none, some, List, [], ◌∷◌, ◌==◌, if◌then◌else◌, or_default, or_else, find,
}
use cobdata_back.Contracts.{Text, Contract}
use cobdata_back.Payments.Store.{contract_has_id}
use cobdata_back.Providers.Model.{
  OperationAction, ProviderOperationItem, ProviderRow, ProviderState,
}
use cobdata_back.Providers.Adapter.{
  portal, pre_calculada, Offer, DebtOrigin, DebtPayload, RemovePayload, ProviderConfig, Request,
  sends, removes,
}

-- The members of the decrypted credentials, and the operations of the language on texts.
pub record Credentials : Type 0 where
  pub api_key : Option Text
  pub token : Option Text

pub record Texts : Type 0 where
  pub trim : Text → Text
  pub digits : Text → Text
  pub decrypt : Text → Option Credentials

-- `a || b` for a text that may be missing: the empty text, 0, is false.
abbrev pub non_empty : Option Text → Option Text
non_empty none = none
non_empty (some t) = if t == 0 then none else some t

abbrev pub wallet_name : Texts → Option Text → Option Text
wallet_name texts none = none
wallet_name texts (some t) = non_empty (some (texts.trim t))

abbrev pub debt_origin_of : Texts → Contract → Option DebtOrigin
debt_origin_of texts c = elim (non_empty c.wallet.creditor_cnpj) [
  | none ↦ none
  | some cnpj ↦ some (record { name = c.wallet.creditor_name; document = texts.digits cnpj })
]

abbrev pub offer_of : Contract → Offer
offer_of c = record {
  value = or_default c.offer_value c.updated_value;
  due_days_first_installment = or_default c.offer_first_installment_days 5;
  max_installments = or_default c.offer_max_installments 1;
}

-- The text after `ORIGEM: ` stands for the whole.
abbrev pub debt_type_of : Contract → Text
debt_type_of c =
    or_default
      (or_else (non_empty c.wallet.creditor_trade_name) (non_empty (some c.wallet.creditor_name)))
      c.debt_type

abbrev pub debt_payload : Texts → Text → Contract → DebtPayload
debt_payload texts item_id c =
    let name = wallet_name texts c.wallet.serasa_wallet_external_id in
    record {
      operation_item_id = item_id;
      document = c.debtor_document;
      contract_number = c.contract_number;
      wallet = elim name [ none ↦ pre_calculada | some w ↦ portal w ];
      debt_type = debt_type_of c;
      occurrence_date = c.occurrence_date;
      debt_value = c.updated_value;
      offer = elim name [ none ↦ some (offer_of c) | some w ↦ none ];
      debt_origin = debt_origin_of texts c;
    }

-- The payloads of the items, each with the contract that its foreign key names.
unfoldable pub debt_payloads : Texts → List Contract → List ProviderOperationItem → List DebtPayload
debt_payloads texts contracts [] = []
debt_payloads texts contracts (i ∷ is) =
    let rest = debt_payloads texts contracts is in
    elim (find (contract_has_id i.contract_id) contracts) [
      | none ↦ rest
      | some c ↦ debt_payload texts i.id c ∷ rest
    ]

unfoldable pub remove_payloads : List Contract → List ProviderOperationItem → List RemovePayload
remove_payloads contracts [] = []
remove_payloads contracts (i ∷ is) =
    let rest = remove_payloads contracts is in
    elim (find (contract_has_id i.contract_id) contracts) [
      | none ↦ rest
      | some c ↦ record { operation_item_id = i.id; id = c.debt_id } ∷ rest
    ]

abbrev pub request_of :
    Texts → OperationAction → List Contract → List ProviderOperationItem → Request
request_of texts OperationAction.create_or_update contracts items =
    sends (debt_payloads texts contracts items)
request_of texts OperationAction.remove contracts items = removes (remove_payloads contracts items)

-- `credentials.apiKey || credentials.token`, which has to be a text that is not blank.
abbrev pub key_of : Texts → Credentials → Option Text
key_of texts c = elim (or_else (non_empty c.api_key) c.token) [
  | none ↦ none
  | some key ↦ if texts.trim key == 0 then none else some key
]

abbrev pub provider_has_id : Text → ProviderRow → Bool
provider_has_id k p = p.id == k

-- `none` where the code throws.
unfoldable pub get_provider_config : Texts → Text → ProviderState → Option ProviderConfig
get_provider_config texts provider_id s = elim (find (provider_has_id provider_id) s.providers) [
  | none ↦ none
  | some p ↦ elim (texts.decrypt p.credentials) [
    | none ↦ none
    | some c ↦ elim (key_of texts c) [
      | none ↦ none
      | some key ↦ some (record { api_key = key; production = p.production })
    ]
  ]
]
