-- ===== src/BlockTime.antt =====
-- helpers/blocktime.py: from a date to a block height, by bisection over the explorer's times.
pub mod Search
use si_lnt.Prelude.{
  ℕ, zero, suc, ◌+◌, ◌-◌, ◌/◌, Option, none, some, Bool, true, false, min, max, ltb, if◌then◌else◌,
}

-- TIMESTAMP_SLACK_BLOCKS
abbrev pub slack_blocks : ℕ
slack_blocks = 12

-- MAX_SEARCH_STEPS
abbrev pub max_search_steps : ℕ
max_search_steps = 48

-- One bisection step.
unfoldable pub narrow : ℕ → ℕ → ℕ → ℕ → ℕ → ℕ × ℕ
narrow low high probe probe_ts target_ts =
    if ltb probe_ts target_ts then (probe + 1, high) else (low, probe)

unfoldable pub probe_height : ℕ → ℕ → ℕ
probe_height low high = low + (high - low) / 2

unfoldable pub back_off : ℕ → ℕ → ℕ
back_off height floor = max floor (height - slack_blocks)

unfoldable pub clamp : ℕ → ℕ → ℕ → ℕ
clamp height low high = max low (min high height)

-- The loop of `search_steps`, on fuel that the span gives.
count_steps : ℕ → ℕ → ℕ → ℕ
count_steps zero low high = 0
count_steps (suc fuel) low high = elim (ltb low high) [
  | true ↦ suc (count_steps fuel (low + (high - low) / 2 + 1) high)
  | false ↦ 0
]

unfoldable pub search_steps : ℕ → ℕ → ℕ
unfolding count_steps
search_steps low high = count_steps (high - low) low high

abbrev pub read_time : Option ℕ → Option ℕ
read_time none = none
read_time (some zero) = none
read_time (some (suc t)) = some (suc t)

-- `block_time` is the explorer: the time of a block, or none where it cannot say. A time of zero
-- is taken for none.
module _ (block_time : ℕ → Option ℕ) (target_ts : ℕ) where
  -- The `while` loop, with the number of probes that are left.
  unfoldable pub search : ℕ → ℕ → ℕ → Option ℕ
  unfolding narrow probe_height
  search zero lo hi = elim (ltb lo hi) [ true ↦ none | false ↦ some lo ]
  search (suc left) lo hi = elim (ltb lo hi) [
    | false ↦ some lo
    | true ↦
        let mid = probe_height lo hi in
        elim (read_time (block_time mid)) [
          | none ↦ none
          | some ts ↦ let bounds = narrow lo hi mid ts target_ts in search left bounds.0 bounds.1
        ]
  ]

  finish : ℕ → Option ℕ → Option ℕ
  finish low none = none
  finish low (some height) = some (back_off height low)

  unfoldable pub height_at : ℕ → ℕ → Option ℕ
  unfolding finish
  height_at low high = elim (ltb high low) [
    | true ↦ none
    | false ↦ finish low (search max_search_steps low high)
  ]
