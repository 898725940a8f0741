-- ===== src/Auth/Attempts.antt =====
-- How many failed logins an address has within one window.
use cobdata_back.Base.{
  ◌-◌, ℕ, ◌≡◌, ◌+◌, ◌≤◌, ◌<◌, refl, Bool, true, false, none, some, List, [], ◌∷◌, arith, any, find,
  find-eq-none, find-passes, All, leb, ◌==◌, ==_refl, if◌then◌else◌, Bool-cases, inl, inr,
}
use cobdata_back.Auth.Sessions.{Text}
use cobdata_back.Auth.RateLimit.{
  Counter, RateLimitResult, is_there, live_key, del, expire, check_and_increment, window_seconds,
}

abbrev has_counter_key : Text → Counter → Bool
has_counter_key key c = c.key == key

find_live :
    (now : ℕ) (key : Text) (cs : List Counter) (c : Counter)
    → find (has_counter_key key) cs ≡ some c
    → is_there now c ≡ true
    → find (live_key now key) cs ≡ some c
find_live now key [] c h k = ground arith
find_live now key (d ∷ ds) c h k = ground (arith, find_live now key ds c)

module _ (key : Text) where
  -- The failed attempts at the given times that the limit does not block, one after the other.
  unfoldable pub unblocked : List ℕ → List Counter → ℕ
  unfolding check_and_increment
  unblocked [] cs = 0
  unblocked (now ∷ times) cs =
      let (r, cs') = check_and_increment now key cs in
      (if r.blocked then 0 else 1) + unblocked times cs'

  -- The counter stands at `n` until the given time.
  abbrev Counts : ℕ → ℕ → List Counter → Type 0
  Counts n until cs =
      (c : Counter) × (find (has_counter_key key) cs ≡ some c)
      × (c.count ≡ n)
      × (c.until ≡ some until)

  abbrev next : ℕ → List Counter → RateLimitResult × List Counter
  next now cs = check_and_increment now key cs

  next_full :
      (n until now : ℕ) (cs : List Counter)
      → Counts n until cs
      → now < until
      → 5 ≤ n
      → ((next now cs).0.blocked ≡ true) × ((next now cs).1 ≡ cs)
  unfolding check_and_increment
  next_full n until now cs (c, found, count, time) early full =
      ground (arith, find_live now key cs c found)

  abbrev raised : Counter → Counter
  raised c = record c { count = c.count + 1 }

  next_raises :
      (now : ℕ) (cs : List Counter) (c : Counter)
      → find (live_key now key) cs ≡ some c
      → c.key ≡ key
      → is_there now c ≡ true
      → 1 ≤ c.count
      → c.count < 5
      → ((next now cs).0.blocked ≡ leb 4 c.count) × ((next now cs).1 ≡ raised c ∷ del key cs)
  unfolding check_and_increment
  next_raises now cs c found is_key live some_ few = ground arith

  next_more :
      (n until now : ℕ) (cs : List Counter)
      → Counts n until cs
      → now < until
      → 1 ≤ n
      → n < 5
      → ((next now cs).0.blocked ≡ leb 4 n) × Counts (n + 1) until (next now cs).1
  next_more n until now cs (c, found, count, time) early some_ few =
      let passes = find-passes (has_counter_key key) cs c found in
      let is_key : c.key ≡ key = ground arith in
      let live : is_there now c ≡ true = ground arith in
      let more =
        next_raises now cs c (find_live now key cs c found live) is_key live (rw count some_)
          (rw count few) in
      (rw (more.0, count) refl, rw more.1 (raised c, rw passes refl, rw count refl, time))

  unblocked_rest :
      (n until : ℕ) (times : List ℕ) (cs : List Counter)
      → Counts n until cs
      → 1 ≤ n
      → All (λ now. now < until) times
      → unblocked times cs ≤ 4 - n
  unfolding unblocked
  unblocked_rest n until [] cs h some_ early = omega arith
  unblocked_rest n until (now ∷ times) cs h some_ early = elim (Bool-cases (leb 5 n)) [
    | inl full ↦
        let same = next_full n until now cs h early.0 (ground arith) in
        let rest = unblocked_rest n until times cs h some_ early.1 in
        rw (same.0, same.1) (omega (arith, rest))
    | inr few ↦
        let more = next_more n until now cs h early.0 some_ (ground arith) in
        let rest =
          unblocked_rest (n + 1) until times (next now cs).1 more.1 (omega arith) early.1 in
        rw more.0 (ground (arith, rest))
  ]

  abbrev first : ℕ → Counter
  first now = record { key = key; count = 1; until = some (now + window_seconds) }

  next-first :
      (now : ℕ) (cs : List Counter)
      → find (live_key now key) cs ≡ none
      → ((next now cs).0.blocked ≡ false)
        × ((next now cs).1 ≡ first now ∷ expire (now + window_seconds) key (del key cs))
  unfolding check_and_increment
  next-first now cs absent = ground arith

  -- From a moment at which an address has no counter, at most four failed logins are answered as
  -- such within the 900 seconds that follow, the first one included; the others are blocked.
  pub check_and_increment-unblocked :
      (now : ℕ) (times : List ℕ) (cs : List Counter)
      → any (live_key now key) cs ≡ false
      → All (λ t. t < now + window_seconds) times
      → unblocked (now ∷ times) cs ≤ 4
  unfolding unblocked
  check_and_increment-unblocked now times cs absent early =
      let begins = next-first now cs (find-eq-none (live_key now key) cs absent) in
      let counts : Counts 1 (now + window_seconds) (next now cs).1 =
        rw begins.1 (first now, rw (==_refl key) refl, refl, refl) in
      let rest =
        unblocked_rest 1 (now + window_seconds) times (next now cs).1 counts (omega arith) early in
      rw begins.0 (omega (arith, rest))
