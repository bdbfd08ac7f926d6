-- ===== src/Registration.antt =====
-- crud.py and helpers/email_verification.py: the registrations that wait for a code, and the rules
-- of a registration. LNbits, its accounts and its cipher, is a parameter.
pub mod Guess
pub mod Flow
use si_lnt.Prelude.{
  ℕ, ◌+◌, ◌*◌, ◌==◌, Bool, true, false, not, ◌&&◌, ◌||◌, Option, none, some, List, [], ◌∷◌, ◌++◌,
  map, keep, sum_of, is_empty, length, ltb, leb, if◌then◌else◌, Result, ok, err, ◌>>=◌, ◌>>◌,
  refuse_if,
}
use si_lnt.Prelude.Int.{ℤ, pos, negsuc}
use si_lnt.Prelude.Text.{Text, codes, strip, lower, text_eq, has_char}

abbrev pub ttl_seconds : ℕ
ttl_seconds = 60 * 60

abbrev pub max_wrong_codes : ℕ
max_wrong_codes = 5

-- A row of silnt.pending_registrations.
pub record Pending : Type 0 where
  pub email : Text
  pub username : Text
  pub password_hash : Text
  pub code_hmac : Text
  pub attempts : ℕ
  pub created_at : ℕ

abbrev pub address_key : Text → Text
address_key email = lower (strip email)

-- `hmac` is the keyed hash of a text.
unfoldable pub hash_registration_code : (hmac : Text → Text) → Text → Text → Text
hash_registration_code hmac email code =
    hmac (codes "register:" ++ address_key email ++ b':' ∷ code)

abbrev pub is_for : Text → Pending → Bool
is_for email r = text_eq r.email email

abbrev pub delete_for : Text → List Pending → List Pending
delete_for email table = keep (λ r. not (is_for email r)) table

unfoldable pub find_for : Text → List Pending → Option Pending
find_for email [] = none
find_for email (r ∷ table) =
    let rest = find_for email table in if is_for email r then some r else rest

unfoldable pub put_pending_registration :
    (hmac : Text → Text) → ℕ → Text → Text → Text → Text → List Pending → List Pending
put_pending_registration hmac now email username password_hash code table =
    let key = address_key email in
    delete_for key table
    ++ record {
      email = key;
      username = username;
      password_hash = password_hash;
      code_hmac = hash_registration_code hmac key code;
      attempts = 0;
      created_at = now;
    }
      ∷ []

-- Whether a row has outlived its hour.
abbrev pub is_stale : ℕ → Pending → Bool
is_stale now r = ltb (r.created_at + ttl_seconds) now

pub data Taken : Type 0 where
  taken : Pending → Taken
  unknown expired mismatch : Taken

abbrev pub with_attempts : Text → ℕ → List Pending → List Pending
with_attempts email n table =
    map (λ r. if is_for email r then record r { attempts = n } else r) table

-- What is made of the row that was found.
abbrev pub take_row :
    (hmac : Text → Text) → ℕ → Text → Text → List Pending → Option Pending → List Pending × Taken
take_row hmac now email code table none = (table, unknown)
take_row hmac now email code table (some r) =
    if is_stale now r
    then (delete_for email table, expired)
    else if text_eq r.code_hmac (hash_registration_code hmac email code)
    then (delete_for email table, taken r)
    else if leb max_wrong_codes (r.attempts + 1)
    then (delete_for email table, mismatch)
    else (with_attempts email (r.attempts + 1) table, mismatch)

unfoldable pub take_pending_registration :
    (hmac : Text → Text) → ℕ → Text → Text → List Pending → List Pending × Taken
take_pending_registration hmac now email code table =
    take_row hmac now (address_key email) code table (find_for (address_key email) table)

unfoldable pub drop_pending_registration : Text → List Pending → List Pending
drop_pending_registration email table = delete_for (address_key email) table

unfoldable pub named_row : Text → List Pending → Option Pending
named_row username [] = none
named_row username (r ∷ table) =
    let rest = named_row username table in if text_eq r.username username then some r else rest

abbrev pub is_fresh : ℕ → Option Pending → Bool
is_fresh now none = false
is_fresh now (some r) = not (is_stale now r)

unfoldable pub pending_registration_username_taken : ℕ → Text → List Pending → Bool
pending_registration_username_taken now username table = is_fresh now (named_row username table)

-- `len(s.encode("utf-8"))`
abbrev pub utf8_bytes : Text → ℕ
utf8_bytes s =
    sum_of
      (λ c. if ltb c 0x80 then 1 else if ltb c 0x800 then 2 else if ltb c 0x1_0000 then 3 else 4) s

pub record RegistrationRequest : Type 0 where
  pub username : Text
  pub email : Text
  pub password : Text
  pub turnstile_token : Option Text
  pub terms_version : Option ℤ
  -- The caller's address, and whether the request names an origin, as a browser's does.
  pub ip : Text
  pub has_origin : Bool

pub data RegistrationError : Type 0 where
  auth_disabled rate_limited unverified turnstile_refused terms_missing terms_outdated bad_username
        bad_email password_short password_long in_use not_started mail_disabled not_sent
        invalid_link code_missing code_refused no_longer_available not_created :
      RegistrationError

abbrev pub token_of : Option Text → Text
token_of none = []
token_of (some t) = strip t

-- `verify` is what the verification service says of a token.
unfoldable pub require_turnstile :
    (secret : Text) (enforce_always : Bool) (verify : Text → Bool)
    → RegistrationRequest
    → Result RegistrationError (Unit {0})
require_turnstile secret enforce_always verify request =
    let token = token_of request.turnstile_token in
    if is_empty (strip secret)
    then ok tt
    else if is_empty token
    then refuse_if (enforce_always || request.has_origin) unverified
    else refuse_if (not (verify token)) turnstile_refused

-- `TERMS_VERSION` is 1.
abbrev pub terms_version_ok : ℤ → Bool
terms_version_ok (pos n) = n == 1
terms_version_ok _ = false

abbrev pub require_version : Bool → Option ℤ → Result RegistrationError (Unit {0})
require_version has_origin none = refuse_if has_origin terms_missing
require_version has_origin (some version) =
    refuse_if (not (terms_version_ok version)) terms_outdated

unfoldable pub require_terms : RegistrationRequest → Result RegistrationError (Unit {0})
require_terms request = require_version request.has_origin request.terms_version

-- The tests of the fields themselves.
unfoldable pub check_fields : Text → Text → Text → Result RegistrationError (Unit {0})
check_fields username email password = do
  refuse_if (ltb (length username) 3 || ltb 32 (length username)) bad_username
  refuse_if (not (has_char b'@' email)) bad_email
  refuse_if (ltb (length password) 8) password_short
  refuse_if (ltb 72 (utf8_bytes password)) password_long
