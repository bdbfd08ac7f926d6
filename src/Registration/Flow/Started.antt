-- ===== src/Registration/Flow/Started.antt =====
-- A registration that was started can be confirmed.
use si_lnt.Prelude.{
  ℕ, ◌+◌, ◌≤◌, ◌≡◌, refl, sym, ap, ◌∙◌, arith, true, false, ◌||◌, Option, none, some, List, [], ◌∷◌,
  is_empty, Bool-cases, inl, inr, Result, ok, err, ok_inj, refuse_if-eq-ok, >>=-eq-ok, not-false,
}
use si_lnt.Prelude.Text.{Text, strip, lower, has_char, text_eq, text_eq_refl}
use si_lnt.Prelude.Find.{lower-strip_idem}
use si_lnt.Limits.Register.{Limit, Limiter, check_registration_allowed}
use si_lnt.Registration.{
  Pending, address_key, hash_registration_code, find_for, delete_for, put_pending_registration,
  take_row, taken, take_pending_registration, RegistrationRequest, is_stale, RegistrationError,
  require_turnstile, require_terms, check_fields, bad_username, bad_email, in_use,
}
use si_lnt.Registration.Guess.{find-put}
use si_lnt.Registration.Flow.{
  Lnbits, Site, Mail, sent, failed, Circumstances, with_mail, with_row, check_request, with_check,
  with_limit, start_registration, create_verified_account, confirm_registration,
}

full_text : (c : ℕ) (t : Text) → has_char c t ≡ true → is_empty t ≡ false
full_text c [] h = cc h
full_text c (d ∷ t) h = refl

module _ (lnbits : Lnbits) (hmac : Text → Text) where
  abbrev Answer : Type 0
  Answer = Site lnbits × Result RegistrationError Text

  refused :
      {P : Type 0} (s s' : Site lnbits) (e : RegistrationError) (address : Text)
      → ◌≡◌ {A = Answer} (s, err e) (s', ok address)
      → P
  refused s s' e address h = absurd (let bad = ap (λ (p : Answer). p.1) h in cc bad)

  record IsMailed (w : Circumstances) (email : Text) (s s' : Site lnbits) (address : Text)
      : Type 0 where
    address_is : address ≡ email
    accounts_are : s'.accounts ≡ s.accounts
    pending_is : s'.pending ≡ s.pending

  answer-IsMailed :
      (w : Circumstances) (email : Text) (s s' : Site lnbits) (address : Text)
      → with_mail lnbits hmac w email s ≡ (s', ok address)
      → IsMailed w email s s' address
  answer-IsMailed w email s s' address h = elim (Bool-cases w.mail_enabled) [
    | inr e ↦ refused s s' _ address (rw e at h)
    | inl e ↦ by_mail w.mail refl (rw e at h)
  ]
    where
      by_mail :
          (m : Mail)
          → w.mail ≡ m
          → with_mail lnbits hmac (record w { mail_enabled = true; mail = m }) email s
            ≡ (s', ok address)
          → IsMailed w email s s' address
      by_mail failed e h = refused s s' _ address h
      by_mail sent e h =
          let site = ap (λ (p : Answer). p.0) h in
          record {
            address_is = sym (ok_inj (ap (λ (p : Answer). p.1) h));
            accounts_are = sym (ap (λ (s : Site lnbits). s.accounts) site);
            pending_is = sym (ap (λ (s : Site lnbits). s.pending) site);
          }

  -- What is left of a registration that was started: its row, under an address with an @, and a
  -- name and an address that are free.
  record IsStarted (w : Circumstances) (request : RegistrationRequest) (s s' : Site lnbits)
      (address hash : Text) : Type 0 where
    address_is : address ≡ address_key request.email
    accounts_are : s'.accounts ≡ s.accounts
    pending_is :
        s'.pending
        ≡ put_pending_registration hmac w.now
            (address_key request.email)
            (strip request.username)
            hash
            w.code
            s.pending
    at_sign : has_char b'@' (address_key request.email) ≡ true
    free :
        (lnbits.is_taken (strip request.username) s.accounts
          || lnbits.is_taken (address_key request.email) s.accounts)
        ≡ false

  stored-IsStarted :
      (w : Circumstances) (request : RegistrationRequest) (limiter : Limiter) (s s' : Site lnbits)
      (address hash : Text)
      → check_request lnbits hmac w request (record s { limiter = limiter }) ≡ ok tt
      → with_row lnbits hmac w
          (strip request.username)
          (address_key request.email)
          (some hash)
          (record s { limiter = limiter })
        ≡ (s', ok address)
      → IsStarted w request s s' address hash
  unfolding check_request check_fields
  stored-IsStarted w request limiter s s' address hash good h = elim (Bool-cases w.is_stored) [
    | inr e ↦ refused _ s' _ address (rw e at h)
    | inl e ↦
        let email = address_key request.email in
        let (_, _, g1) =
          >>=-eq-ok (require_turnstile w.secret w.enforce_always w.verify request) _ good in
        let (_, _, g2) = >>=-eq-ok (require_terms request) _ g1 in
        let (_, fields, g3) =
          >>=-eq-ok (check_fields (strip request.username) email request.password) _ g2 in
        let (free, g4) = refuse_if-eq-ok _ in_use _ g3 in
        let (_, f1) = refuse_if-eq-ok _ bad_username _ fields in
        let (at_sign, f2) = refuse_if-eq-ok _ bad_email _ f1 in
        let m = answer-IsMailed w email _ s' address (rw e at h) in
        record {
          address_is = m.address_is;
          accounts_are = m.accounts_are;
          pending_is = m.pending_is;
          at_sign = not-false _ at_sign;
          free = free;
        }
  ]

  start-IsStarted :
      (w : Circumstances) (request : RegistrationRequest) (s s' : Site lnbits) (address hash : Text)
      → w.protect request.password ≡ some hash
      → start_registration lnbits hmac w request s ≡ (s', ok address)
      → IsStarted w request s s' address hash
  unfolding start_registration check_request
  start-IsStarted w request s s' address hash protects h = elim (Bool-cases w.auth_allowed) [
    | inr e ↦ refused _ s' _ address (rw e at h)
    | inl e ↦
        let (limiter, limit) =
          check_registration_allowed w.now request.ip request.email s.limiter in
        by_limit limiter limit (rw e at h)
  ]
    where
      by_check :
          (limiter : Limiter) (r : Result RegistrationError (Unit {0}))
          → check_request lnbits hmac w request (record s { limiter = limiter }) ≡ r
          → with_check lnbits hmac w request (record s { limiter = limiter }) r ≡ (s', ok address)
          → IsStarted w request s s' address hash
      by_check limiter (err e) good h = refused _ s' e address h
      by_check limiter (ok u) good h =
          stored-IsStarted w request limiter s s' address hash good (rw protects at h)

      by_limit :
          (limiter : Limiter) (limit : Option Limit)
          → with_limit lnbits hmac w request (record s { limiter = limiter }) limit
            ≡ (s', ok address)
          → IsStarted w request s s' address hash
      by_limit limiter (some l) h = refused _ s' _ address h
      by_limit limiter none h =
          by_check limiter (check_request lnbits hmac w request (record s { limiter = limiter }))
            refl h

  take-fresh :
      (now : ℕ) (e code : Text) (table : List Pending) (r : Pending)
      → find_for e table ≡ some r
      → is_stale now r ≡ false
      → r.code_hmac ≡ hash_registration_code hmac e code
      → take_row hmac now e code table (find_for e table) ≡ (delete_for e table, taken r)
  take-fresh now e code table r found fresh same =
      let compares : text_eq r.code_hmac (hash_registration_code hmac e code) ≡ true =
        ap (λ t. text_eq t (hash_registration_code hmac e code)) same
        ∙ text_eq_refl (hash_registration_code hmac e code) in
      rw found (rw (fresh, compares) refl)

  -- A row whose code is right, and whose name and address are free.
  confirms :
      (now : ℕ) (e code : Text) (s : Site lnbits) (r : Pending) (accounts : lnbits.Accounts)
      → lower (strip e) ≡ e
      → is_empty e ≡ false
      → strip code ≡ code
      → is_empty code ≡ false
      → find_for e s.pending ≡ some r
      → is_stale now r ≡ false
      → r.code_hmac ≡ hash_registration_code hmac e code
      → (lnbits.is_taken r.username s.accounts || lnbits.is_taken r.email s.accounts) ≡ false
      → lnbits.create r.username r.email r.password_hash s.accounts ≡ some accounts
      → confirm_registration lnbits hmac now e code s
        ≡ (record s { accounts = accounts; pending = delete_for e s.pending }, ok r.email)
  unfolding confirm_registration take_pending_registration create_verified_account
  confirms now e code s r accounts key full whole digits found fresh same free creates =
      rw
        (
          key,
          whole,
          key,
          full,
          digits,
          take-fresh now e code s.pending r found fresh same,
          free,
          creates,
        )
        refl

-- A registration that was started can be confirmed: within the hour the code that was drawn (which
-- is not blank) makes the account with the hash that was made of the password, where LNbits creates
-- it.
pub started_confirms :
    (lnbits : Lnbits) (hmac : Text → Text) (w : Circumstances) (request : RegistrationRequest)
    (s s' : Site lnbits) (address hash : Text) (accounts : lnbits.Accounts) (now : ℕ)
    → start_registration lnbits hmac w request s ≡ (s', ok address)
    → w.protect request.password ≡ some hash
    → strip w.code ≡ w.code
    → is_empty w.code ≡ false
    → now ≤ w.now + 3600
    → lnbits.create (strip request.username) address hash s.accounts ≡ some accounts
    → let (s'', result) = confirm_registration lnbits hmac now address w.code s' in
      (result ≡ ok address) × (s''.accounts ≡ accounts)
started_confirms lnbits hmac w request s s' address hash accounts now h protects whole digits soon
      creates =
    let i = start-IsStarted lnbits hmac w request s s' address hash protects h in
    let e = address_key request.email in
    let key = lower-strip_idem request.email in
    let row : Text → Pending = λ k. record {
      email = k;
      username = strip request.username;
      password_hash = hash;
      code_hmac = hash_registration_code hmac k w.code;
      attempts = 0;
      created_at = w.now;
    } in
    let table =
      put_pending_registration hmac w.now e (strip request.username) hash w.code s.pending in
    let with_row : find_for e s'.pending ≡ some (row e) =
      ap (find_for e) i.pending_is
      ∙ ap (λ k. find_for k table) (sym key)
      ∙ find-put hmac w.now e (strip request.username) hash w.code s.pending
      ∙ ap (λ k. some (row k)) key in
    let fresh : is_stale now (row e) ≡ false = ground (arith, soon) in
    let done =
      confirms lnbits hmac now e w.code s' (row e) accounts key (full_text b'@' e i.at_sign) whole
        digits with_row fresh refl (rw i.accounts_are i.free)
        (ap (λ a. lnbits.create (strip request.username) e hash a) i.accounts_are
          ∙ ap (λ k. lnbits.create (strip request.username) k hash s.accounts) (sym i.address_is)
          ∙ creates) in
    let whole_answer =
      ap (λ k. confirm_registration lnbits hmac now k w.code s') i.address_is ∙ done in
    (
      ap (λ (p : Answer lnbits hmac). p.1) whole_answer ∙ ap ok (sym i.address_is),
      ap (λ (p : Answer lnbits hmac). p.0.accounts) whole_answer,
    )
