-- ===== src/Limits/Register/Bounds.antt =====
-- How many registrations the limiter lets through within an hour.
use si_lnt.Prelude.{
  ℕ, ◌+◌, ◌≤◌, ◌≡◌, refl, arith, Bool, true, false, Option, none, some, List, [], ◌∷◌, ◌++◌,
  if◌then◌else◌, Bool-cases, inl, inr,
}
use mathlib.Core.List.{append-nil, append_assoc}
use native.Mathlib.Nat.{le_trans}
use si_lnt.Prelude.Text.{Text, text_eq, text_eq→≡, text_eq_refl}
use si_lnt.Limits.Window.{
  prune, count_since, count_since-append, count_since-prune, count_since-le-length, is_since,
}
use si_lnt.Limits.Register.{
  Limiter, IsInOrder, last_time, start, Limit, Event, attempt, mailed, time_of,
  check_registration_allowed, record_registration_email, step, admitted_at, admitted, admitted_from,
  run, all_admitted, all_admitted_from, max_starts_per_ip_hour, max_starts_global_hour, email_key,
}

-- `before` is what was let through up to now: the log agrees with it on the last hour.
pub record Agrees (who : Text) (now : ℕ) (all from_ip : List ℕ) (s : Limiter) : Type 0 where
  pub global_agrees : (c : ℕ) → now ≤ c + 3600 → count_since c all ≡ count_since c s.global_log
  pub ip_agrees : (c : ℕ) → now ≤ c + 3600 → count_since c from_ip ≡ count_since c (s.ip_log who)
  pub global_bound : (c : ℕ) → now ≤ c + 3600 → count_since c all ≤ max_starts_global_hour
  pub ip_bound : (c : ℕ) → now ≤ c + 3600 → count_since c from_ip ≤ max_starts_per_ip_hour

-- What a call adds to a count: the attempt, if it is let through.
abbrev counted : ℕ → Option Limit → ℕ → ℕ
counted now none c = is_since c now
counted now (some _) c = 0

added-count :
    (now c : ℕ) (xs : List ℕ) (o : Option Limit)
    → count_since c (xs ++ admitted_at now o) ≡ count_since c xs + counted now o c
added-count now c xs none = count_since-append c now xs
added-count now c xs (some _) = rw append-nil (omega arith)

added-count_if :
    (now c : ℕ) (xs : List ℕ) (b : Bool) (o : Option Limit)
    → count_since c (xs ++ (if b then admitted_at now o else []))
      ≡ count_since c xs + (if b then counted now o c else 0)
added-count_if now c xs true o = added-count now c xs o
added-count_if now c xs false o = rw append-nil (omega arith)

module _ (now : ℕ) (ip email : Text) (s : Limiter) where
  abbrev outcome : Limiter × Option Limit
  outcome = check_registration_allowed now ip email s

  outcome-global :
      (c : ℕ)
      → now ≤ c + 3600
      → count_since c outcome.0.global_log ≡ count_since c s.global_log + counted now outcome.1 c
  unfolding check_registration_allowed
  outcome-global c h = ground (
    arith,
    count_since-prune c now 3600 s.global_log h,
    count_since-append c now (prune now 3600 s.global_log),
  )

  outcome-ip :
      (who : Text) (c : ℕ)
      → now ≤ c + 3600
      → count_since c (outcome.0.ip_log who)
        ≡ count_since c (s.ip_log who) + (if text_eq ip who then counted now outcome.1 c else 0)
  unfolding check_registration_allowed
  outcome-ip who c h = ground (
    arith,
    text_eq→≡ ip who,
    text_eq_refl ip,
    count_since-prune c now 3600 (s.ip_log ip) h,
    count_since-append c now (prune now 3600 (s.ip_log ip)),
  )

  outcome_room :
      (c : ℕ)
      → now ≤ c + 3600
      → count_since c s.global_log ≤ max_starts_global_hour
      → count_since c s.global_log + counted now outcome.1 c ≤ max_starts_global_hour
  unfolding check_registration_allowed
  outcome_room c h fits = ground (
    arith,
    count_since-prune c now 3600 s.global_log h,
    count_since-le-length c (prune now 3600 s.global_log),
  )

  outcome-ip_room :
      (who : Text) (c : ℕ)
      → now ≤ c + 3600
      → count_since c (s.ip_log who) ≤ max_starts_per_ip_hour
      → count_since c (s.ip_log who) + (if text_eq ip who then counted now outcome.1 c else 0)
        ≤ max_starts_per_ip_hour
  unfolding check_registration_allowed
  outcome-ip_room who c h fits = ground (
    arith,
    text_eq→≡ ip who,
    text_eq_refl ip,
    count_since-prune c now 3600 (s.ip_log ip) h,
    count_since-le-length c (prune now 3600 (s.ip_log ip)),
  )

module _ (who : Text) (before now : ℕ) (ip email : Text) (all from_ip : List ℕ) (s : Limiter) where
  abbrev call : Event
  call = attempt now ip email

  attempt-Agrees :
      before ≤ now
      → Agrees who before all from_ip s
      → Agrees who now (all ++ admitted call s) (from_ip ++ admitted_from who call s) (step call s)
  unfolding step
  attempt-Agrees le a =
      let o : Option Limit = (outcome now ip email s).1 in
      record {
        global_agrees = λ c h. omega (
          arith,
          added-count now c all o,
          outcome-global now ip email s c h,
          a.global_agrees c (le_trans le h),
        );
        ip_agrees = λ c h. omega (
          arith,
          added-count_if now c from_ip (text_eq ip who) o,
          outcome-ip now ip email s who c h,
          a.ip_agrees c (le_trans le h),
        );
        global_bound = λ c h.
            let agreed = a.global_agrees c (le_trans le h) in
            omega (
              arith,
              agreed,
              added-count now c all o,
              outcome_room now ip email s c h (rw (← agreed) (a.global_bound c (le_trans le h))),
            );
        ip_bound = λ c h.
            let agreed = a.ip_agrees c (le_trans le h) in
            omega (
              arith,
              agreed,
              added-count_if now c from_ip (text_eq ip who) o,
              outcome-ip_room now ip email s who c h (rw (← agreed) (a.ip_bound c (le_trans le h))),
            );
      }

-- Mail and the clock do not touch the logs.
Agrees-later :
    (who : Text) (before now : ℕ) (all from_ip : List ℕ) (s : Limiter) (sent : Text → ℕ)
    → before ≤ now
    → Agrees who before all from_ip s
    → Agrees who now (all ++ []) (from_ip ++ []) (record s { email_sent = sent })
Agrees-later who before now all from_ip s sent le a =
    rw (append-nil all, append-nil from_ip)
      (record {
        global_agrees = λ c h. a.global_agrees c (le_trans le h);
        ip_agrees = λ c h. a.ip_agrees c (le_trans le h);
        global_bound = λ c h. a.global_bound c (le_trans le h);
        ip_bound = λ c h. a.ip_bound c (le_trans le h);
      })

mailed-Agrees :
    (who : Text) (before now : ℕ) (email : Text) (all from_ip : List ℕ) (s : Limiter)
    → before ≤ now
    → Agrees who before all from_ip s
    → Agrees who now (all ++ []) (from_ip ++ []) (step (mailed now email) s)
unfolding step record_registration_email
mailed-Agrees who before now email all from_ip s le a =
    elim (Bool-cases (text_eq (email_key email) [])) [
      | inl e ↦ rw e (Agrees-later who before now all from_ip s s.email_sent le a)
      | inr e ↦ rw e (Agrees-later who before now all from_ip s _ le a)
    ]

step-Agrees :
    (who : Text) (before : ℕ) (e : Event) (all from_ip : List ℕ) (s : Limiter)
    → before ≤ time_of e
    → Agrees who before all from_ip s
    → Agrees who (time_of e) (all ++ admitted e s) (from_ip ++ admitted_from who e s) (step e s)
step-Agrees who before (attempt now ip email) all from_ip s le a =
    attempt-Agrees who before now ip email all from_ip s le a
step-Agrees who before (mailed now email) all from_ip s le a =
    mailed-Agrees who before now email all from_ip s le a

run-Agrees :
    (who : Text) (before : ℕ) (events : List Event) (all from_ip : List ℕ) (s : Limiter)
    → IsInOrder before events
    → Agrees who before all from_ip s
    → Agrees who
        (last_time before events)
        (all ++ all_admitted s events)
        (from_ip ++ all_admitted_from who s events)
        (run s events)
unfolding all_admitted all_admitted_from run
run-Agrees who before [] all from_ip s o a = rw append-nil (rw append-nil a)
run-Agrees who before (e ∷ es) all from_ip s o a = rw (← append_assoc) (
    rw (← append_assoc) (
      run-Agrees who (time_of e) es (all ++ admitted e s) (from_ip ++ admitted_from who e s)
        (step e s) o.1 (step-Agrees who before e all from_ip s o.0 a)))

Agrees-start : (who : Text) → Agrees who 0 [] [] start
Agrees-start who = record {
  global_agrees = λ c h. refl;
  ip_agrees = λ c h. refl;
  global_bound = λ c h. le_trans (count_since-le-length c []) (omega arith);
  ip_bound = λ c h. le_trans (count_since-le-length c []) (omega arith);
}

-- Whatever is attempted and mailed, in the order of the clock, no more than 200 attempts are let
-- through within the last hour, and no more than 10 of any one address.
pub registrations_bounded :
    (who : Text) (events : List Event) (c : ℕ)
    → IsInOrder 0 events
    → last_time 0 events ≤ c + 3600
    → (count_since c (all_admitted start events) ≤ max_starts_global_hour)
      × (count_since c (all_admitted_from who start events) ≤ max_starts_per_ip_hour)
registrations_bounded who events c o h =
    let a = run-Agrees who 0 events [] [] start o (Agrees-start who) in
    (a.global_bound c h, a.ip_bound c h)
