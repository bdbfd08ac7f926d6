-- ===== src/Limits/Scan/Slots.antt =====
-- One scan at a time for each account, and how its slot comes back.
use si_lnt.Prelude.{
  ℕ, suc, ◌+◌, ◌≤◌, ◌<◌, ◌≡◌, ◌≢◌, refl, arith, Bool, true, false, Option, none, some, List, [],
  ◌∷◌, length, ltb, le→ltb, leb, ap,
}
use si_lnt.Prelude.Int.{ℤ}
use si_lnt.Prelude.Text.{Text, text_eq→≡, text_eq_refl}
use si_lnt.Limits.Scan.{
  Limiter, Refusal, cooldown, already_running, check_scan_allowed, check_plain_preview_allowed,
  mark_scan_finished, clear_wallet_limits, set_add, set_discard, max_concurrent_per_user,
  wallet_cooldown_seconds, start,
}

-- Everything that changes the limiter.
pub data Step : Limiter → Limiter → Type 0 where
  scan :
      (now : ℕ) (user wallet ip : Text) (blocks : ℕ) (s : Limiter)
      → Step s (check_scan_allowed now user wallet ip blocks s).0
  preview :
      (now : ℕ) (user : Text) (s : Limiter) → Step s (check_plain_preview_allowed now user s).0
  finish :
      (user wallet : Text) (actual : Option ℤ) (estimated : Option ℕ) (reset : Bool) (s : Limiter)
      → Step s (mark_scan_finished user wallet actual estimated reset s)
  clear :
      (wallet : Text) (user : Option Text) (s : Limiter)
      → Step s (clear_wallet_limits wallet user s)

pub data Reach (s : Limiter) : Limiter → Type 0 where
  here : Reach s s
  next : {t u : Limiter} → Reach s t → Step t u → Reach s u

pub record IsExclusive (s : Limiter) : Type 0 where
  pub at_user : (user : Text) → length (s.active_scans user) ≤ max_concurrent_per_user

set_discard-le : (x : Text) (xs : List Text) → length (set_discard x xs) ≤ length xs
set_discard-le x [] = omega arith
set_discard-le x (y ∷ ys) = ground (arith, set_discard-le x ys)

set_add-le : (x : Text) (xs : List Text) → length (set_add x xs) ≤ suc (length xs)
set_add-le x xs = ground arith

scan-IsExclusive :
    (now : ℕ) (user wallet ip : Text) (blocks : ℕ) (s : Limiter)
    → IsExclusive s
    → IsExclusive (check_scan_allowed now user wallet ip blocks s).0
unfolding check_scan_allowed
scan-IsExclusive now user wallet ip blocks s h = record {
  at_user =
      λ u. ground (arith, h.at_user u, text_eq→≡ user u, set_add-le wallet (s.active_scans user));
}

Step-IsExclusive : {s t : Limiter} → Step s t → IsExclusive s → IsExclusive t
unfolding check_plain_preview_allowed mark_scan_finished clear_wallet_limits
Step-IsExclusive (scan now user wallet ip blocks s) h =
    scan-IsExclusive now user wallet ip blocks s h
Step-IsExclusive (preview now user s) h = record { at_user = λ u. ground (arith, h.at_user u) }
Step-IsExclusive (finish user wallet actual estimated reset s) h = record {
  at_user =
      λ u. ground (arith, h.at_user u, h.at_user user, set_discard-le wallet (s.active_scans user));
}
Step-IsExclusive (clear wallet (some user) s) h = record {
  at_user =
      λ u. ground (arith, h.at_user u, h.at_user user, set_discard-le wallet (s.active_scans user));
}
Step-IsExclusive (clear wallet none s) h = record {
  at_user = λ u. omega (arith, h.at_user u, set_discard-le wallet (s.active_scans u));
}

-- From a state where every account has at most one scan running, whatever is called in whatever
-- order, no account ever has more than one.
pub Reach-IsExclusive : {s t : Limiter} → IsExclusive s → Reach s t → IsExclusive t
Reach-IsExclusive h here = h
Reach-IsExclusive h (next r st) = Step-IsExclusive st (Reach-IsExclusive h r)

pub IsExclusive-start : IsExclusive start
IsExclusive-start = record { at_user = λ u. omega arith }

discard_added : (x : Text) (xs : List Text) → length xs < 1 → set_discard x (set_add x xs) ≡ []
discard_added x [] h = ground (arith, text_eq_refl x)
discard_added x (y ∷ ys) h = absurd (omega arith)

set_add-pos : (x : Text) (xs : List Text) → 0 < length (set_add x xs)
set_add-pos x [] = omega arith
set_add-pos x (y ∷ ys) = ground arith

busy_refused :
    (now : ℕ) (user wallet ip : Text) (blocks : ℕ) (s : Limiter)
    → (check_scan_allowed now user wallet ip blocks s).1 ≡ none
    → length (s.active_scans user) < 1
unfolding check_scan_allowed
busy_refused now user wallet ip blocks s h = ground arith

-- Neither of the first two limits is the one that fired.
abbrev pub IsPastSlots : Option Refusal → ℕ → Type 0
IsPastSlots r wait = (r ≢ some already_running) × (r ≢ some (cooldown wait))

past_slots :
    (now : ℕ) (user wallet ip : Text) (blocks wait : ℕ) (s : Limiter)
    → ltb now (s.last_scan_time wallet + wallet_cooldown_seconds) ≡ false
    → leb max_concurrent_per_user (length (s.active_scans user)) ≡ false
    → IsPastSlots (check_scan_allowed now user wallet ip blocks s).1 wait
unfolding check_scan_allowed
past_slots now user wallet ip blocks wait s cool free = ((λ e. ground arith), (λ e. ground arith))

module _ (now : ℕ) (user wallet ip : Text) (blocks : ℕ) (s : Limiter) where
  abbrev admission : Limiter × Option Refusal
  admission = check_scan_allowed now user wallet ip blocks s

  admitted_free : admission.1 ≡ none → length (s.active_scans user) < 1
  unfolding check_scan_allowed
  admitted_free h = ground arith

  admitted_active :
      admission.1 ≡ none → admission.0.active_scans user ≡ set_add wallet (s.active_scans user)
  unfolding check_scan_allowed
  admitted_active h = ground (arith, text_eq_refl user)

  -- A running scan keeps its account's slot: whatever the time, the wallet, the address and the
  -- size of the next one, it is refused.
  pub running_refuses :
      (later : ℕ) (other from : Text) (more : ℕ)
      → admission.1 ≡ none
      → (check_scan_allowed later user other from more admission.0).1 ≢ none
  running_refuses later other from more h passed = omega (
    arith,
    busy_refused later user other from more admission.0 passed,
    occupied,
    set_add-pos wallet (s.active_scans user),
  )
    where
      occupied :
          length (admission.0.active_scans user) ≡ length (set_add wallet (s.active_scans user))
      occupied = ap length (admitted_active h)

  -- After a scan that was let through and then ended with its wallet's cooldown reset, from the
  -- first minute of the clock on, neither the cooldown nor a running scan stops the next scan of
  -- that wallet.
  pub finish_frees :
      (actual : Option ℤ) (estimated : Option ℕ) (later : ℕ) (from : Text) (more wait : ℕ)
      → wallet_cooldown_seconds ≤ later
      → admission.1 ≡ none
      → IsPastSlots
          (check_scan_allowed later user wallet from more
            (mark_scan_finished user wallet actual estimated true admission.0)).1
          wait
  unfolding mark_scan_finished
  finish_frees actual estimated later from more wait late h =
      past_slots later user wallet from more wait _ (rw (text_eq_refl wallet) (le→ltb _ _ late)) (
        rw
          (
            text_eq_refl user,
            admitted_active h,
            discard_added wallet (s.active_scans user) (admitted_free h),
          )
          refl)
