-- ===== src/Providers/Payload.antt =====
-- src/providers/webhooks.service.ts: the payload of an event of Serasa, and what the code reads in it.
use cobdata_back.Base.{
  ℕ, zero, suc, Bool, true, false, Option, none, some, List, [], ◌∷◌, pos, if◌then◌else◌,
  or_default, or_else, is, find,
}
use cobdata_back.Contracts.{Text, Date, Contract, Installment}
use cobdata_back.Providers.Model.{EventType}

-- A date as the provider writes it, and what `parseProviderDate` reads in it.
pub record RawDate : Type 0 where
  pub text : Text
  pub parsed : Option Date

-- The members of an agreement, of a payment and of a payload, each absent or as `asString`,
-- `asPositiveInt` and `asAmount` accept it; amounts are in cents, percentages in hundredths.
pub record AgreementFields : Type 0 where
  pub agreement_id : Option Text
  pub id : Option Text
  pub total_installments : Option ℕ
  pub installments_amount : Option ℕ
  pub installment_count : Option ℕ
  pub total_amount : Option ℕ
  pub agreement_value : Option ℕ
  pub amount : Option ℕ
  pub installments : Option (List Installment)
  pub discount_percentage : Option ℕ

pub record PaymentFields : Type 0 where
  pub installment_number : Option ℕ
  pub number : Option ℕ
  pub amount : Option ℕ
  pub paid_amount : Option ℕ

-- `top` and `top_payment` are the same members at the top of the payload.
pub record WebhookPayload : Type 0 where
  pub event_type : EventType
  pub transaction_id : Option Text
  pub status : Option ℕ
  pub debt_id : Option Text
  pub debt_ids : List Text
  pub contract_number : Option Text
  pub document : Option Text
  pub error_code : Option Text
  pub agreement_total_amount : Option ℕ
  pub top : AgreementFields
  pub agreement : Option AgreementFields
  pub top_payment : PaymentFields
  pub payment : Option PaymentFields
  pub installment : Option PaymentFields
  pub payment_date : Option RawDate
  pub date : Option RawDate
  pub paid_at : Option RawDate
  pub breach_date : Option RawDate
  pub created_at : Option RawDate

-- What `agreementProjection` returns: the fields of a contract that an event sets.
pub record AgreementProjection : Type 0 where
  pub reference : Option Text
  pub total_installments : Option ℕ
  pub total_amount : Option ℕ
  pub installments : Option (List Installment)
  pub due_at : Option Date
  pub discount : Option ℕ

abbrev pub positive : Option ℕ → Option ℕ
positive none = none
positive (some zero) = none
positive (some (suc n)) = some (suc n)

abbrev pub first_due : Option (List Installment) → Option Date
first_due none = none
first_due (some []) = none
first_due (some (i ∷ is)) = or_else i.due_date i.payment_limit_date

unfoldable pub agreement_projection : WebhookPayload → AgreementProjection
agreement_projection payload =
    let a = or_default payload.agreement payload.top in
    let installments = or_else a.installments payload.top.installments in
    record {
      reference = or_else a.agreement_id (or_else a.id payload.top.agreement_id);
      total_installments = positive (
          or_else a.total_installments (
            or_else a.installments_amount (
              or_else a.installment_count
                (or_else payload.top.total_installments payload.top.installments_amount))));
      total_amount =
          or_else a.total_amount
            (or_else a.agreement_value (or_else a.amount payload.agreement_total_amount));
      installments = installments;
      due_at = first_due installments;
      discount = or_else a.discount_percentage payload.top.discount_percentage;
    }

abbrev pub projected : AgreementProjection → Contract → Contract
projected p c = record c {
  agreement_reference = or_else p.reference c.agreement_reference;
  total_installments = or_else p.total_installments c.total_installments;
  agreement_total_amount = or_else p.total_amount c.agreement_total_amount;
  agreed_payment_amount = or_else p.total_amount c.agreed_payment_amount;
  agreement_installments = or_else p.installments c.agreement_installments;
  agreement_due_at = or_else p.due_at c.agreement_due_at;
  accepted_discount_percent = elim p.discount [
    | none ↦ c.accepted_discount_percent
    | some d ↦ some (pos d)
  ];
}

abbrev pub payment_of : WebhookPayload → PaymentFields
payment_of payload = or_default (or_else payload.payment payload.installment) payload.top_payment

abbrev pub installment_number_of : WebhookPayload → Option ℕ
installment_number_of payload =
    let p = payment_of payload in
    positive
      (or_else p.installment_number (or_else p.number payload.top_payment.installment_number))

abbrev pub scheduled_for : ℕ → Installment → Bool
scheduled_for n i = is (positive (or_else i.number i.installment_number)) n

unfoldable pub scheduled_installment_amount : Option (List Installment) → Option ℕ → Option ℕ
scheduled_installment_amount none number = none
scheduled_installment_amount (some schedule) none = none
scheduled_installment_amount (some schedule) (some n) = elim (find (scheduled_for n) schedule) [
  | none ↦ none
  | some i ↦ or_else i.value i.amount
]

abbrev pub is_paid_agreement : EventType → Bool
is_paid_agreement EventType.paid_agreement = true
is_paid_agreement _ = false

-- `asAmount` of the column of a contract: of null it makes 0.
abbrev pub amount_of_column : Option ℕ → Option ℕ
amount_of_column value = some (or_default value 0)

abbrev pub payment_amount : WebhookPayload → Contract → Option ℕ
payment_amount payload c =
    let p = payment_of payload in
    or_else
      (or_else p.amount (
        or_else p.paid_amount (or_else payload.top_payment.amount payload.top_payment.paid_amount)))
      (or_else
        (scheduled_installment_amount c.agreement_installments (installment_number_of payload))
        (if is_paid_agreement payload.event_type
          then amount_of_column c.agreement_total_amount
          else none))

abbrev pub first_debt : List Text → Option Text
first_debt [] = none
first_debt (d ∷ ds) = some d

abbrev pub parsed_date : Option RawDate → Option Date
parsed_date none = none
parsed_date (some d) = d.parsed

abbrev pub date_text : Option RawDate → Option Text
date_text none = none
date_text (some d) = some d.text
