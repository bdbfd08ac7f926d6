-- ===== src/Payout/Run.antt =====
-- helpers/tangopayoutrun.py: when a payout may be tried, how long it waits and when it stops.
pub mod Queue
pub mod Config
pub mod Enqueue
pub mod Liquidity
pub mod Attempt
pub mod Counts
pub mod Once
pub mod Steps
pub mod Paid
pub mod Refines
pub mod Sound
pub mod Budget
use si_lnt.Prelude.{
  ℕ, zero, suc, ◌+◌, ◌-◌, Bool, true, false, not, ◌&&◌, ◌||◌, Option, none, some, max, ltb, leb,
  ◌==◌, if◌then◌else◌,
}
use si_lnt.Prelude.Int.{ℤ, pos_part}

abbrev pub max_attempts : ℕ
max_attempts = 6

abbrev pub defer_seconds : ℕ
defer_seconds = 300

abbrev pub defer_max_seconds : ℕ
defer_max_seconds = 86_400

pub data PayoutStatus : Type 0 where
  pending paid failed unpayable : PayoutStatus

-- A height of none or zero is not known.
abbrev pub known_height : Option ℕ → ℕ
known_height none = 0
known_height (some h) = h

unfoldable pub confirmations : Option ℕ → Option ℕ → ℕ
confirmations tip_height block_height =
    let tip = known_height tip_height in
    let block = known_height block_height in
    if (tip == 0) || (block == 0) then 0 else if ltb tip block then 0 else tip - block + 1

unfoldable pub is_confirmed_enough : Option ℕ → Option ℕ → ℤ → Bool
is_confirmed_enough tip_height block_height minimum =
    leb (max 1 (pos_part minimum)) (confirmations tip_height block_height)

-- BACKOFF_SECONDS, and its last one from then on.
unfoldable pub backoff_for : ℕ → ℕ
backoff_for zero = 60
backoff_for (suc zero) = 300
backoff_for (suc (suc zero)) = 900
backoff_for (suc (suc (suc zero))) = 1800
backoff_for (suc (suc (suc (suc n)))) = 3600

unfoldable pub next_attempt_at : ℕ → ℕ → ℕ
next_attempt_at now attempts = now + backoff_for attempts

unfoldable pub give_up : ℕ → Bool → Bool
give_up attempts permanent = permanent || leb max_attempts attempts

unfoldable pub status_after : ℕ → Bool → PayoutStatus
unfolding give_up
status_after attempts permanent =
    if not (give_up attempts permanent) then pending else if permanent then unpayable else failed

-- The seconds since a moment, which is none where it is missing or cannot be read.
unfoldable pub owed_age_seconds : Option ℕ → ℕ → ℕ
owed_age_seconds none now = defer_max_seconds
owed_age_seconds (some stamp) now = now - stamp

unfoldable pub should_defer : Option ℕ → ℕ → ℕ → Bool
should_defer none net_sats owed_for_seconds = false
should_defer (some balance) net_sats owed_for_seconds =
    if leb defer_max_seconds owed_for_seconds then false else ltb balance net_sats

unfoldable pub next_deferral_at : ℕ → ℕ
next_deferral_at now = now + defer_seconds

unfoldable pub requeue_on_recovery : Option Bool → Bool → Bool
requeue_on_recovery (some false) now_ok = now_ok
requeue_on_recovery _ now_ok = false

unfoldable pub available_sats : ℕ → ℕ → ℕ
available_sats balance_sats owed_sats = balance_sats - owed_sats

unfoldable pub can_route : ℕ → ℤ → Bool
can_route available threshold = leb (pos_part threshold) available

-- What the user is told; `none` is nothing.
pub data UserError : Type 0 where
  will_be_retried check_address : UserError

unfoldable pub user_facing_error : PayoutStatus → Option UserError
user_facing_error pending = none
user_facing_error paid = none
user_facing_error failed = some will_be_retried
user_facing_error unpayable = some check_address
