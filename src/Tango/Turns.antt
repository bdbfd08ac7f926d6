-- ===== src/Tango/Turns.antt =====
-- helpers/tango.py: the states of a round, whose turn it is, and when it runs out.
pub mod Order
use si_lnt.Prelude.{
  ℕ, zero, suc, ◌≡◌, refl, Bool, true, false, not, ◌||◌, Option, none, some, List, [], ◌∷◌, ◌++◌,
  leb, if◌then◌else◌, Result, ok, err, arith,
}
use si_lnt.Prelude.Text.{Text, codes, text_eq, strip, lower, starts_with}

pub data Status : Type 0 where
  proposed accepted a_signed broadcast cancelled : Status

abbrev pub is_terminal : Status → Bool
is_terminal broadcast = true
is_terminal cancelled = true
is_terminal _ = false

unfoldable pub whose_turn : Status → Option Text
whose_turn proposed = some (codes "b")
whose_turn accepted = some (codes "a")
whose_turn a_signed = some (codes "b")
whose_turn broadcast = none
whose_turn cancelled = none

pub data TurnError : Type 0 where
  not_a_party already_over stuck waiting_on_other : TurnError

abbrev pub is_party : Text → Bool
is_party role = text_eq role (codes "a") || text_eq role (codes "b")

-- Behind the test of the role: the turn, the caller's role, and whether the round is over.
abbrev judge_turn : Option Text → Text → Bool → Result TurnError (Unit {0})
judge_turn (some turn) role over =
    if text_eq turn role then ok tt else if over then err already_over else err waiting_on_other
judge_turn none role over = if over then err already_over else err stuck

unfoldable pub require_turn : Status → Text → Result TurnError (Unit {0})
require_turn status role =
    if not (is_party role)
    then err not_a_party
    else judge_turn (whose_turn status) role (is_terminal status)

unfoldable pub can_cancel : Status → Bool
can_cancel status = not (is_terminal status)

-- An `expires_at` of none or zero is no time limit.
unfoldable pub is_expired : Status → Option ℕ → ℕ → Bool
is_expired status expires_at now =
    if is_terminal status
    then false
    else elim expires_at [ none ↦ false | some zero ↦ false | some (suc t) ↦ leb (suc t) now ]

abbrev pub expired : Text
expired = codes "expired"

abbrev pub by : Text
by = codes "cancelled by "

unfoldable pub cancelled_by : Text → Option Text
cancelled_by role = if is_party role then some (by ++ role) else none

-- `text[n:]`
abbrev drop : ℕ → Text → Text
drop zero s = s
drop (suc n) [] = []
drop (suc n) (c ∷ s) = drop n s

unfoldable pub who_cancelled : Option Text → Option Text
who_cancelled none = none
who_cancelled (some reason) =
    let text = lower (strip reason) in
    let role = strip (drop 13 text) in
    if starts_with text by then (if is_party role then some role else none) else none
