-- ===== src/Tests/BlockTime.antt =====
-- helpers/blocktime.py on a chain of one block every ten minutes.
use si_lnt.Prelude.{ℕ, suc, ◌+◌, ◌-◌, ◌*◌, ◌≤◌, ◌<◌, ◌≡◌, ◌⊎◌, refl, arith, Option, some}
use si_lnt.BlockTime.{slack_blocks, back_off, height_at, search}
use si_lnt.BlockTime.Search.{height_at_lem, height_at-not_late}

abbrev time : ℕ → ℕ
time h = 600 * h

abbrev explorer : ℕ → Option ℕ
explorer h = some (suc (time h))

found : height_at explorer 600000 100 5000 ≡ some 988
unfolding height_at search back_off
found = refl

-- Every block is before the date: the answer is still a block, twelve below the last.
all_early : height_at explorer 6000000 100 5000 ≡ some 4988
unfolding height_at search back_off
all_early = refl

height_at_lem_example :
    (h : ℕ) × (height_at explorer 600000 100 5000 ≡ some (back_off h 100))
    × (100 ≤ h)
    × (h ≤ 5000)
    × ((h ≡ 100) ⊎ (suc (time (h - 1)) < 600000))
    × ((h ≡ 5000) ⊎ (600000 ≤ suc (time h)))
height_at_lem_example =
    height_at_lem explorer 600000 100 5000 time (λ h l u. refl) (omega arith) (omega arith)

height_at-not_late_example :
    ((988 ≤ 700) ⊎ (suc (time 700) < 600000))
    × ((700 < 988 + slack_blocks) ⊎ (600000 ≤ suc (time 700)))
height_at-not_late_example =
    height_at-not_late explorer 600000 100 5000 time (λ h l u. refl) (omega arith) (omega arith) 700
      988 (λ x y h. omega arith) found (omega arith) (omega arith)
