-- ===== src/Providers/CreditorRemoval/Found.antt =====
-- `byKey.get` over lists that are appended or filtered.
use cobdata_back.Base.{
  ◌≡◌, refl, sym, ap, ◌∙◌, Bool, true, false, ◌&&◌, Option, none, some, List, [], ◌∷◌, ◌++◌,
  if◌then◌else◌, arith,
}
use cobdata_back.Contracts.{Contract}
use cobdata_back.Providers.CreditorRemoval.{find_last}

-- The last of two rows.
abbrev pub later : Option Contract → Option Contract → Option Contract
later first last = elim last [ none ↦ first | some d ↦ some d ]

pub find_last-append :
    (p : Contract → Bool) (xs ys : List Contract)
    → find_last p (xs ++ ys) ≡ later (find_last p xs) (find_last p ys)
unfolding find_last
find_last-append p [] ys = ground arith
find_last-append p (x ∷ xs) ys = ground (arith, find_last-append p xs ys)

pub later-none : (o : Option Contract) → later none o ≡ o
later-none none = refl
later-none (some d) = refl

pub and_true : (a : Bool) → a ≡ (a && true)
and_true a = ground arith

pub and_false : (a : Bool) → false ≡ (a && false)
and_false a = ground arith

pub keep_step :
    (p : Contract → Bool) (b : Bool) (c : Contract) (cs : List Contract)
    → find_last p (if b then c ∷ cs else cs)
      ≡ later (if p c && b then some c else none) (find_last p cs)
unfolding find_last
keep_step p true c cs =
    ap (λ b. later (if b then some c else none) (find_last p cs)) (and_true (p c))
keep_step p false c cs =
    sym (later-none (find_last p cs))
    ∙ ap (λ b. later (if b then some c else none) (find_last p cs)) (and_false (p c))

pub later_again :
    (k : Bool) (found : Option Contract) → later (if k then found else none) found ≡ found
later_again true none = refl
later_again false none = refl
later_again k (some c) = refl

pub covered_later :
    (a o k : Bool) (c : Contract) (found : Option Contract)
    → later (if a && (o && k) then some c else none) (if k then found else none)
      ≡ (if k then later (if a && o then some c else none) found else none)
covered_later false o true c found = refl
covered_later false o false c found = refl
covered_later true true k c found = ground arith
covered_later true false true c found = refl
covered_later true false false c found = refl
