-- ===== src/Limits/Scan/Budget.antt =====
-- The hourly budget of blocks, and the refund of what was not scanned.
use si_lnt.Prelude.{
  ℕ, ◌+◌, ◌≤◌, ◌≡◌, refl, arith, Bool, true, Option, none, some, List, [], ◌∷◌, ◌++◌, any,
  sum_of-append, ◌==◌,
}
use si_lnt.Prelude.Int.{pos}
use si_lnt.Prelude.Text.{Text, text_eq_refl}
use si_lnt.Limits.Scan.{
  Limiter, Refusal, check_scan_allowed, mark_scan_finished, prune_blocks, blocks_of, correct_latest,
  max_blocks_per_user_hr,
}

prune_blocks-append :
    (now : ℕ) (xs ys : List (ℕ × ℕ))
    → prune_blocks now 3600 (xs ++ ys) ≡ prune_blocks now 3600 xs ++ prune_blocks now 3600 ys
unfolding prune_blocks
prune_blocks-append now [] ys = refl
prune_blocks-append now ((t, c) ∷ xs) ys = ground (arith, prune_blocks-append now xs ys)

prune_blocks-prune_blocks :
    (now : ℕ) (xs : List (ℕ × ℕ))
    → prune_blocks now 3600 (prune_blocks now 3600 xs) ≡ prune_blocks now 3600 xs
unfolding prune_blocks
prune_blocks-prune_blocks now [] = refl
prune_blocks-prune_blocks now ((t, c) ∷ xs) = ground (arith, prune_blocks-prune_blocks now xs)

prune_blocks-now :
    (now blocks : ℕ) → prune_blocks now 3600 ((now, blocks) ∷ []) ≡ (now, blocks) ∷ []
unfolding prune_blocks
prune_blocks-now now blocks = ground arith

any-last :
    (estimated now : ℕ) (log : List (ℕ × ℕ))
    → any (λ e. e.1 == estimated) (log ++ (now, estimated) ∷ []) ≡ true
any-last estimated now [] = ground arith
any-last estimated now (x ∷ xs) = ground (arith, any-last estimated now xs)

correct_latest-blocks :
    (estimated actual : ℕ) (log : List (ℕ × ℕ))
    → any (λ e. e.1 == estimated) log ≡ true
    → blocks_of (correct_latest estimated actual log) + estimated ≡ blocks_of log + actual
unfolding correct_latest
correct_latest-blocks estimated actual [] h = cc
correct_latest-blocks estimated actual ((ts, count) ∷ log) h =
    ground (arith, correct_latest-blocks estimated actual log)

module _ (now : ℕ) (user wallet ip : Text) (blocks : ℕ) (s : Limiter) where
  abbrev admission : Limiter × Option Refusal
  admission = check_scan_allowed now user wallet ip blocks s

  admitted_log :
      admission.1 ≡ none
      → admission.0.user_blocks_log user
        ≡ prune_blocks now 3600 (s.user_blocks_log user) ++ (now, blocks) ∷ []
  unfolding check_scan_allowed
  admitted_log h = ground (arith, text_eq_refl user)

  admitted_fits :
      admission.1 ≡ none
      → blocks_of (prune_blocks now 3600 (s.user_blocks_log user)) + blocks ≤ max_blocks_per_user_hr
  unfolding check_scan_allowed
  admitted_fits h = ground (arith, text_eq_refl user)

  -- A scan that is let through leaves the account's blocks of the last hour, its own among them,
  -- within the budget.
  pub admitted_within_budget :
      admission.1 ≡ none
      → blocks_of (prune_blocks now 3600 (admission.0.user_blocks_log user))
        ≤ max_blocks_per_user_hr
  admitted_within_budget h =
      rw
        (
          admitted_log h,
          prune_blocks-append now (prune_blocks now 3600 (s.user_blocks_log user)),
          prune_blocks-prune_blocks,
          prune_blocks-now,
        )
        (omega (
          arith,
          admitted_fits h,
          sum_of-append (λ (e : ℕ × ℕ). e.1) (prune_blocks now 3600 (s.user_blocks_log user))
              ((now, blocks) ∷ []),
        ))

  -- A scan that ends is charged what it scanned in place of what was estimated, and nothing else
  -- of the account's log changes in sum.
  pub finished_charge :
      (actual : ℕ) (reset : Bool)
      → admission.1 ≡ none
      → let ended =
          mark_scan_finished user wallet (some (pos actual)) (some blocks) reset admission.0 in
        blocks_of (ended.user_blocks_log user) + blocks
        ≡ blocks_of (admission.0.user_blocks_log user) + actual
  unfolding mark_scan_finished
  finished_charge actual reset h =
      rw (text_eq_refl user)
        (correct_latest-blocks blocks actual _ (rw (admitted_log h) (any-last blocks now _)))
