-- ===== src/Tests/Registration.antt =====
-- A registration on small accounts.
use si_lnt.Prelude.{
  ◌≡◌, ◌≤◌, refl, arith, true, false, ◌||◌, none, some, List, [], ◌∷◌, any, ok, err,
}
use si_lnt.Prelude.Int.{pos}
use si_lnt.Prelude.Text.{Text, codes, strip, lower, text_eq}
use si_lnt.Limits.Register
use si_lnt.Limits.Window.{prune}
use si_lnt.Registration.{
  RegistrationRequest, put_pending_registration, pending_registration_username_taken, named_row,
  require_turnstile, require_terms, check_fields, in_use, not_sent,
}
use si_lnt.Registration.Guess.{Guess, is_compared, answered_so, guesses_bounded}
use si_lnt.Registration.Flow.{
  Lnbits, Site, sent, failed, Circumstances, check_request, start_registration,
  confirm_registration,
}
use si_lnt.Registration.Flow.Started.{started_confirms}

-- Accounts as a list of names and addresses.
abbrev lnbits : Lnbits
lnbits = record {
  Accounts = List (Text × Text);
  is_taken = λ t accounts. any (λ a. text_eq t a.0 || text_eq t a.1) accounts;
  create = λ username email hash accounts. some ((username, email) ∷ accounts);
}

abbrev hmac : Text → Text
hmac t = t

abbrev nobody : Site lnbits
nobody = record { accounts = []; pending = []; limiter = Register.start }

abbrev outside : Circumstances
outside = record {
  now = 1000;
  auth_allowed = true;
  secret = [];
  enforce_always = false;
  verify = λ token. true;
  protect = λ password. some (codes "hash");
  code = codes "004217";
  is_stored = true;
  mail_enabled = true;
  mail = sent;
}

abbrev request : RegistrationRequest
request = record {
  username = codes " alice ";
  email = codes "Alice@Example.com";
  password = codes "correct horse";
  turnstile_token = none;
  terms_version = some (pos 1);
  ip = codes "10.0.0.1";
  has_origin = true;
}

abbrev after_start : Site lnbits
after_start = (start_registration lnbits hmac outside request nobody).0

started :
    start_registration lnbits hmac outside request nobody
    ≡ (after_start, ok (codes "alice@example.com"))
unfolding start_registration check_request check_fields require_turnstile require_terms
    pending_registration_username_taken named_row Register.check_registration_allowed
    Register.pruned Register.pruned_global Register.admit prune strip lower
started = refl

started_confirms_example :
    let (s'', result) =
      confirm_registration lnbits hmac 4000
        (codes "alice@example.com")
        (codes "004217")
        after_start in
    (result ≡ ok (codes "alice@example.com"))
    × (s''.accounts ≡ (codes "alice", codes "alice@example.com") ∷ [])
unfolding strip
started_confirms_example =
    started_confirms lnbits hmac outside request nobody after_start (codes "alice@example.com")
      (codes "hash") ((codes "alice", codes "alice@example.com") ∷ []) 4000 started refl refl refl
      (omega arith) refl

-- Where the mail cannot be sent, the caller is asked to try again, and is refused the own name.
retry_refused :
    let first = start_registration lnbits hmac (record outside { mail = failed }) request nobody in
    let again = start_registration lnbits hmac (record outside { now = 1100 }) request first.0 in
    (first.1 ≡ err not_sent) × (again.1 ≡ err in_use)
unfolding start_registration check_request check_fields require_turnstile require_terms
    pending_registration_username_taken named_row put_pending_registration
    Register.check_registration_allowed Register.pruned Register.pruned_global Register.admit prune
    strip lower
retry_refused = (refl, refl)

abbrev site_before : Site lnbits
site_before = record nobody {
  pending =
      put_pending_registration hmac 1000 (codes "a@b.c") (codes "alice") (codes "hash")
        (codes "004217") [];
}

abbrev site_after : Site lnbits
site_after = (confirm_registration lnbits hmac 2000 (codes " A@b.c") (codes "004217") site_before).0

abbrev tries : List Guess
tries =
    record { now = 1010; email = codes "a@b.c"; code = codes "000000" }
    ∷ record { now = 1020; email = codes "A@b.c"; code = codes "000001" }
    ∷ []

guesses_bounded_example :
    answered_so hmac is_compared (codes "a@b.c") tries (
      put_pending_registration hmac 1000
        (codes "a@b.c")
        (codes "alice")
        (codes "hash")
        (codes "004217")
        [])
    ≤ 5
guesses_bounded_example =
    guesses_bounded hmac 1000 (codes "a@b.c") (codes "alice") (codes "hash") (codes "004217") []
      tries
