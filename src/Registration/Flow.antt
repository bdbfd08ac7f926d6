-- ===== src/Registration/Flow.antt =====
-- helpers/email_verification.py: `start_registration`, `confirm_registration`,
-- `complete_registration` and `_create_verified_account`.
pub mod Confirmed
pub mod Started
use si_lnt.Prelude.{
  ℕ, ◌+◌, ◌-◌, Bool, true, false, not, ◌&&◌, ◌||◌, Option, none, some, List, is_empty, ltb,
  if◌then◌else◌, Result, ok, err, ◌>>=◌, ◌>>◌, refuse_if,
}
use si_lnt.Prelude.Text.{Text, codes, strip, lower, text_eq}
use si_lnt.Limits.Register.{Limit, Limiter, check_registration_allowed, record_registration_email}
use si_lnt.Registration.{
  ttl_seconds, Pending, put_pending_registration, Taken, taken, unknown, expired, mismatch,
  take_pending_registration, drop_pending_registration, pending_registration_username_taken,
  RegistrationRequest, RegistrationError, auth_disabled, rate_limited, in_use, not_started,
  mail_disabled, not_sent, invalid_link, code_missing, code_refused, no_longer_available,
  not_created, require_turnstile, require_terms, check_fields,
}

-- LNbits' accounts: whether a name or an address is taken, and the creation of an account, which is
-- none where it raises.
pub record Lnbits : Type 1 where
  pub Accounts : Type 0
  pub is_taken : Text → Accounts → Bool
  pub create : (username email password_hash : Text) → Accounts → Option Accounts

pub record Site (lnbits : Lnbits) : Type 0 where
  pub accounts : lnbits.Accounts
  pub pending : List Pending
  pub limiter : Limiter

pub data Mail : Type 0 where
  sent failed : Mail

-- What a request for a registration meets. `protect` is the password's hash, none where it or the
-- token of the link cannot be made; `code` is the one that is drawn.
pub record Circumstances : Type 0 where
  pub now : ℕ
  pub auth_allowed : Bool
  pub secret : Text
  pub enforce_always : Bool
  pub verify : Text → Bool
  pub protect : Text → Option Text
  pub code : Text
  pub is_stored : Bool
  pub mail_enabled : Bool
  pub mail : Mail

-- What the link's token holds; what is not in it is empty. Those from before the hash was there
-- hold the password.
pub record Token : Type 0 where
  pub is_register : Bool
  pub username : Text
  pub email : Text
  pub password_hash : Text
  pub password : Text
  pub issued_at : ℕ

module _ (lnbits : Lnbits) (hmac : Text → Text) where
  abbrev pub Answer : Type 0
  Answer = Site lnbits × Result RegistrationError Text

  -- The mail, behind a registration that was stored.
  abbrev pub with_mail : Circumstances → Text → Site lnbits → Answer
  with_mail w email s = if not w.mail_enabled then (s, err mail_disabled) else elim w.mail [
    | failed ↦ (s, err not_sent)
    | sent ↦ (record s { limiter = record_registration_email w.now email s.limiter }, ok email)
  ]

  abbrev pub with_row : Circumstances → Text → Text → Option Text → Site lnbits → Answer
  with_row w username email none s = (s, err not_started)
  with_row w username email (some hash) s =
      if not w.is_stored
      then (s, err not_started)
      else with_mail w email (record s {
        pending = put_pending_registration hmac w.now email username hash w.code s.pending;
      })

  -- What refuses a request that the limiter let through.
  unfoldable pub check_request :
      Circumstances → RegistrationRequest → Site lnbits → Result RegistrationError (Unit {0})
  check_request w request s = do
    require_turnstile w.secret w.enforce_always w.verify request
    require_terms request
    let username = strip request.username
    let email = lower (strip request.email)
    check_fields username email request.password
    refuse_if (lnbits.is_taken username s.accounts || lnbits.is_taken email s.accounts) in_use
    refuse_if (pending_registration_username_taken w.now username s.pending) in_use

  abbrev pub with_check :
      Circumstances
      → RegistrationRequest
      → Site lnbits
      → Result RegistrationError (Unit {0})
      → Answer
  with_check w request s (err e) = (s, err e)
  with_check w request s (ok u) =
      with_row w (strip request.username) (lower (strip request.email)) (w.protect request.password)
        s

  abbrev pub with_limit : Circumstances → RegistrationRequest → Site lnbits → Option Limit → Answer
  with_limit w request s (some limit) = (s, err rate_limited)
  with_limit w request s none = with_check w request s (check_request w request s)

  unfoldable pub start_registration : Circumstances → RegistrationRequest → Site lnbits → Answer
  start_registration w request s =
      let (limiter, refused) =
        check_registration_allowed w.now request.ip request.email s.limiter in
      if not w.auth_allowed
      then (s, err auth_disabled)
      else with_limit w request (record s { limiter = limiter }) refused

  abbrev pub with_account : Site lnbits → Text → Option (lnbits.Accounts) → Answer
  with_account s email none = (s, err not_created)
  with_account s email (some accounts) = (record s { accounts = accounts }, ok email)

  unfoldable pub create_verified_account : Text → Text → Text → Site lnbits → Answer
  create_verified_account username email password_hash s =
      if lnbits.is_taken username s.accounts || lnbits.is_taken email s.accounts
      then (s, err no_longer_available)
      else with_account s email (lnbits.create username email password_hash s.accounts)

  abbrev pub confirmed : Site lnbits → Taken → Answer
  confirmed s (taken r) = create_verified_account r.username r.email r.password_hash s
  confirmed s _ = (s, err code_refused)

  unfoldable pub confirm_registration : ℕ → Text → Text → Site lnbits → Answer
  confirm_registration now email code s =
      let key = lower (strip email) in
      let entered = strip code in
      let (pending, answer) = take_pending_registration hmac now key entered s.pending in
      if is_empty key || is_empty entered
      then (s, err code_missing)
      else confirmed (record s { pending = pending }) answer

  -- The hash of a token, or that of the password that an old one holds.
  abbrev pub hash_of : (hash_password : Text → Text) → Text → Text → Option Text
  hash_of hash_password hash password =
      if not (is_empty hash)
      then some hash
      else if is_empty password
      then none
      else some (hash_password password)

  abbrev pub completed : Token → Option Text → Site lnbits → Answer
  completed token none s = (s, err invalid_link)
  completed token (some hash) s =
      create_verified_account token.username token.email hash
        (record s { pending = drop_pending_registration token.email s.pending })

  -- The decoded token, none where it is not one.
  unfoldable pub complete_registration :
      (hash_password : Text → Text) → ℕ → Option Token → Site lnbits → Answer
  complete_registration hash_password now none s = (s, err invalid_link)
  complete_registration hash_password now (some token) s =
      if not token.is_register || ltb (token.issued_at + ttl_seconds) now
      then (s, err invalid_link)
      else completed token (hash_of hash_password token.password_hash token.password) s
