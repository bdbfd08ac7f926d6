-- ===== src/Limits/Register/Cooldown.antt =====
-- After a verification mail its address waits, whatever happens in between.
use si_lnt.Prelude.{ℕ, ◌+◌, ◌≤◌, ◌<◌, ◌≡◌, ◌≢◌, arith, false, none, List, [], ◌∷◌}
use native.Mathlib.Nat.{le_trans, le_refl}
use si_lnt.Prelude.Text.{Text, text_eq, text_eq_refl}
use si_lnt.Limits.Register.{
  Limiter, Event, attempt, mailed, time_of, IsInOrder, check_registration_allowed,
  record_registration_email, step, run, email_key, resend_cooldown_seconds,
}

step-sent :
    (key : Text) (t : ℕ) (e : Event) (s : Limiter)
    → t ≤ time_of e
    → t ≤ s.email_sent key
    → t ≤ (step e s).email_sent key
unfolding step check_registration_allowed record_registration_email
step-sent key t (attempt now ip email) s le h = ground arith
step-sent key t (mailed now email) s le h = ground arith

run-sent :
    (key : Text) (t : ℕ) (now : ℕ) (events : List Event) (s : Limiter)
    → t ≤ now
    → IsInOrder now events
    → t ≤ s.email_sent key
    → t ≤ (run s events).email_sent key
unfolding run
run-sent key t now [] s le o h = h
run-sent key t now (e ∷ es) s le o h =
    run-sent key t (time_of e) es (step e s) (le_trans le o.0) o.1
      (step-sent key t e s (le_trans le o.0) h)

recent_refused :
    (now t : ℕ) (ip email : Text) (s : Limiter)
    → t ≤ s.email_sent (email_key email)
    → now < t + resend_cooldown_seconds
    → text_eq (email_key email) [] ≡ false
    → (check_registration_allowed now ip email s).1 ≢ none
unfolding check_registration_allowed
recent_refused now t ip email s sent soon named passed = ground arith

-- Within the sixty seconds after a mail to an address that is not blank, in the order of the
-- clock, every attempt for that address (in any letter case, with any blanks around it) is
-- refused.
pub cooldown_refuses :
    (t now : ℕ) (ip email again : Text) (s : Limiter) (events : List Event)
    → text_eq (email_key email) [] ≡ false
    → email_key again ≡ email_key email
    → IsInOrder t events
    → now < t + resend_cooldown_seconds
    → (check_registration_allowed now ip again (run (record_registration_email t email s) events)).1
      ≢ none
unfolding record_registration_email
cooldown_refuses t now ip email again s events named same o soon =
    recent_refused now t ip again _
      (run-sent (email_key again) t t events _ (le_refl t) o
        (rw (named, same, text_eq_refl (email_key email)) (le_refl t)))
      soon (rw same named)
