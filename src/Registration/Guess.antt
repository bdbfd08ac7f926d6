-- ===== src/Registration/Guess.antt =====
-- How often a code can be guessed.
use si_lnt.Prelude.{
  ℕ, ◌+◌, ◌-◌, ◌≤◌, ◌<◌, ◌≡◌, refl, ap, ◌∙◌, arith, Bool, true, false, ◌&&◌, Option, none, some,
  List, [], ◌∷◌, ◌++◌, max, leb, if◌then◌else◌, if_keeps, Bool-cases, inl, inr,
}
use si_lnt.Prelude.Text.{Text, text_eq, text_eq→≡, text_eq_refl}
use si_lnt.Prelude.Order.{text_eq_sym}
use si_lnt.Registration.{
  Pending, address_key, hash_registration_code, is_for, delete_for, find_for,
  put_pending_registration, is_stale, Taken, taken, mismatch, with_attempts, take_row,
  max_wrong_codes, take_pending_registration,
}

-- When a code is tried, for which address, and the code.
pub record Guess : Type 0 where
  pub now : ℕ
  pub email : Text
  pub code : Text

-- Whether the code was compared with the one that was sent.
abbrev pub is_compared : Taken → Bool
is_compared (taken r) = true
is_compared mismatch = true
is_compared _ = false

abbrev pub is_success : Taken → Bool
is_success (taken r) = true
is_success _ = false

module _ (hmac : Text → Text) where
  -- How many guesses for an address are answered so.
  pub answered_so : (Taken → Bool) → Text → List Guess → List Pending → ℕ
  answered_so test email [] table = 0
  answered_so test email (g ∷ guesses) table =
      let (next, answer) = take_pending_registration hmac g.now g.email g.code table in
      (if text_eq (address_key g.email) (address_key email) && test answer then 1 else 0)
      + answered_so test email guesses next

module _ (e : Text) where
  pub find-delete : (table : List Pending) → find_for e (delete_for e table) ≡ none
  unfolding find_for
  find-delete [] = refl
  find-delete (r ∷ table) = elim (Bool-cases (is_for e r)) [
    | inl h ↦ rw h (find-delete table)
    | inr h ↦ rw h (rw h (find-delete table))
  ]

  apart : (k : Text) → text_eq k e ≡ false → (r : Pending) → is_for e r ≡ true → is_for k r ≡ false
  apart k h r here = rw (text_eq→≡ r.email e here) (text_eq_sym e k ∙ h)

  find-delete_other :
      (k : Text) (table : List Pending)
      → text_eq k e ≡ false
      → find_for e (delete_for k table) ≡ find_for e table
  unfolding find_for
  find-delete_other k [] h = refl
  find-delete_other k (r ∷ table) h = elim (Bool-cases (is_for e r)) [
    | inl here ↦ rw (apart k h r here) (rw here refl)
    | inr away ↦ elim (Bool-cases (is_for k r)) [
      | inl there ↦ rw (there, away) (find-delete_other k table h)
      | inr gone ↦ rw (gone, away) (find-delete_other k table h)
    ]
  ]

  find-counted_other :
      (k : Text) (n : ℕ) (table : List Pending)
      → text_eq k e ≡ false
      → find_for e (with_attempts k n table) ≡ find_for e table
  unfolding find_for
  find-counted_other k n [] h = refl
  find-counted_other k n (r ∷ table) h = elim (Bool-cases (is_for e r)) [
    | inl here ↦ rw (apart k h r here) (rw here refl)
    | inr away ↦ elim (Bool-cases (is_for k r)) [
      | inl there ↦ rw (there, away) (find-counted_other k n table h)
      | inr gone ↦ rw (gone, away) (find-counted_other k n table h)
    ]
  ]

  attempts_of : Option Pending → Option ℕ
  attempts_of none = none
  attempts_of (some r) = some r.attempts

  find-counted :
      (n : ℕ) (table : List Pending) {r : Pending}
      → find_for e table ≡ some r
      → attempts_of (find_for e (with_attempts e n table)) ≡ some n
  unfolding find_for attempts_of
  find-counted n [] h = cc h
  find-counted n (r ∷ table) h = elim (Bool-cases (is_for e r)) [
    | inl here ↦ rw here (rw here refl)
    | inr away ↦ rw away (rw away (find-counted n table (rw away at h)))
  ]

  -- The guesses that a row still allows.
  abbrev allowed : Option ℕ → ℕ
  allowed none = 0
  allowed (some n) = max 1 (max_wrong_codes - n)

  abbrev left : List Pending → ℕ
  left table = allowed (attempts_of (find_for e table))

  left-delete : (table : List Pending) → left (delete_for e table) ≡ 0
  unfolding attempts_of
  left-delete table = rw (find-delete table) refl

  left-found :
      (table : List Pending) {r : Pending}
      → find_for e table ≡ some r
      → left table ≡ max 1 (5 - r.attempts)
  unfolding attempts_of
  left-found table h = rw h refl

  left-counted :
      (table : List Pending) {r : Pending}
      → find_for e table ≡ some r
      → (n : ℕ) → left (with_attempts e n table) ≡ max 1 (5 - n)
  left-counted table h n = ap allowed (find-counted n table h)

  other_address :
      (hmac : Text → Text) (now : ℕ) (k code : Text) (table : List Pending) (o : Option Pending)
      → text_eq k e ≡ false
      → find_for e (take_row hmac now k code table o).0 ≡ find_for e table
  other_address hmac now k code table none h = refl
  other_address hmac now k code table (some r) h =
      let Same = λ (p : List Pending × Taken). find_for e p.0 ≡ find_for e table in
      let gone = find-delete_other k table h in
      if_keeps Same (is_stale now r) gone (
        if_keeps Same (text_eq r.code_hmac (hash_registration_code hmac k code)) gone (
          if_keeps Same (leb max_wrong_codes (r.attempts + 1)) gone
            (find-counted_other k (r.attempts + 1) table h)))

  abbrev scored : Taken → ℕ
  scored answer = if is_compared answer then 1 else 0

  same_address :
      (hmac : Text → Text) (now : ℕ) (code : Text) (table : List Pending) (o : Option Pending)
      → find_for e table ≡ o
      → let (next, answer) = take_row hmac now e code table o in
        scored answer + left next ≤ left table
  same_address hmac now code table none h = omega arith
  same_address hmac now code table (some r) h =
      let Bounded = λ (p : List Pending × Taken). scored p.1 + left p.0 ≤ left table in
      let here = left-found table h in
      let gone = left-delete table in
      let next = left-counted table h (r.attempts + 1) in
      if_keeps Bounded (is_stale now r) (omega (arith, gone)) (
        if_keeps Bounded (text_eq r.code_hmac (hash_registration_code hmac e code))
          (omega (arith, gone, here))
          (elim (Bool-cases (leb max_wrong_codes (r.attempts + 1))) [
            | inl full ↦ rw full (omega (arith, gone, here))
            | inr room ↦
                let few : r.attempts + 1 < 5 = ground (arith, room) in
                rw room (omega (arith, next, here, few))
          ]))

find-append :
    (e : Text) (table : List Pending) (r : Pending)
    → find_for e table ≡ none
    → is_for e r ≡ true
    → find_for e (table ++ r ∷ []) ≡ some r
unfolding find_for
find-append e [] r h here = rw here refl
find-append e (s ∷ table) r h here = elim (Bool-cases (is_for e s)) [
  | inl e' ↦ absurd (let bad = rw e' at h in cc bad)
  | inr e' ↦ rw e' (find-append e table r (rw e' at h) here)
]

-- A registration that was stored is the one that is found.
pub find-put :
    (hmac : Text → Text) (now : ℕ) (email username password_hash code : Text) (table : List Pending)
    → find_for
        (address_key email)
        (put_pending_registration hmac now email username password_hash code table)
      ≡ some (record {
        email = address_key email;
        username = username;
        password_hash = password_hash;
        code_hmac = hash_registration_code hmac (address_key email) code;
        attempts = 0;
        created_at = now;
      })
unfolding put_pending_registration
find-put hmac now email username password_hash code table =
    find-append (address_key email) (delete_for (address_key email) table) _
      (find-delete (address_key email) table) (text_eq_refl (address_key email))

guess-bounded :
    (hmac : Text → Text) (g : Guess) (e : Text) (table : List Pending)
    → let (next, answer) = take_pending_registration hmac g.now g.email g.code table in
      (if text_eq (address_key g.email) e && is_compared answer then 1 else 0) + left e next
      ≤ left e table
unfolding take_pending_registration
guess-bounded hmac g e table = elim (Bool-cases (text_eq (address_key g.email) e)) [
  | inl same ↦
      let k = text_eq→≡ (address_key g.email) e same in
      rw (same, k) (same_address e hmac g.now g.code table (find_for e table) refl)
  | inr other ↦
      let there =
        ap (λ o. allowed e (attempts_of e o))
          (other_address e hmac g.now (address_key g.email) g.code table
            (find_for (address_key g.email) table) other) in
      rw other (omega (arith, there))
]

answered-left :
    (hmac : Text → Text) (email : Text) (guesses : List Guess) (table : List Pending)
    → answered_so hmac is_compared email guesses table ≤ left (address_key email) table
unfolding answered_so
answered-left hmac email [] table = omega arith
answered-left hmac email (g ∷ guesses) table =
    let next = (take_pending_registration hmac g.now g.email g.code table).0 in
    omega
      (arith, guess-bounded hmac g (address_key email) table, answered-left hmac email guesses next)

-- Behind a registration that was stored, however often and for whatever addresses codes are tried
-- (until the address registers again), at most five codes are compared with the one that was sent.
pub guesses_bounded :
    (hmac : Text → Text) (now : ℕ) (email username password_hash code : Text) (table : List Pending)
    (guesses : List Guess)
    → answered_so hmac is_compared email guesses
        (put_pending_registration hmac now email username password_hash code table)
      ≤ 5
guesses_bounded hmac now email username password_hash code table guesses =
    let with_row =
      left-found (address_key email) _
        (find-put hmac now email username password_hash code table) in
    omega (
      arith,
      with_row,
      answered-left hmac email guesses
          (put_pending_registration hmac now email username password_hash code table),
    )
