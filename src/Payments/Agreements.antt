-- ===== src/Payments/Agreements.antt =====
-- src/payments/agreement-lifecycle.job.ts: the daily job that marks overdue agreements as breached.
use cobdata_back.Base.{
  ◌≡◌, refl, arith, Bool, true, false, not, ◌&&◌, Option, none, some, List, [], ◌∷◌, ltb,
  update_where, All, All-updated,
}
use cobdata_back.Payments.Model.{Date, Contract, PaymentStatus}
use cobdata_back.Payments.Store.{Store}

abbrev pub is_in_agreement : PaymentStatus → Bool
is_in_agreement PaymentStatus.in_agreement = true
is_in_agreement _ = false

abbrev pub is_before : Option Date → Date → Bool
is_before none now = false
is_before (some at) now = ltb at now

abbrev pub is_overdue : Date → Contract → Bool
is_overdue now c =
    is_in_agreement c.payment_status && is_before c.agreement_due_at now && not c.deleted

abbrev pub breached : Contract → Contract
breached c = record c { payment_status = PaymentStatus.agreement_breached }

unfoldable pub mark_overdue_agreements_as_breached : Date → Store → Store
mark_overdue_agreements_as_breached now s = record s {
  contracts = update_where (is_overdue now) breached s.contracts;
}

marked_again :
    (now : Date) (cs : List Contract)
    → update_where (is_overdue now) breached (update_where (is_overdue now) breached cs)
      ≡ update_where (is_overdue now) breached cs
marked_again now [] = refl
marked_again now (c ∷ cs) = ground (arith, marked_again now cs)

-- After the job, no contract that is not deleted has an agreement past its deadline, and a second
-- run at the same time changes nothing.
pub mark_overdue_agreements_as_breached-effect :
    (now : Date) (s : Store)
    → let s' = mark_overdue_agreements_as_breached now s in
      All (λ c. is_overdue now c ≡ false) s'.contracts
      × (mark_overdue_agreements_as_breached now s' ≡ s')
unfolding mark_overdue_agreements_as_breached
mark_overdue_agreements_as_breached-effect now s = (
  All-updated (λ c. is_overdue now c ≡ false) (is_overdue now) breached (λ c h. ground arith)
      (λ c h. h) s.contracts,
  rw (marked_again now s.contracts) refl,
)
