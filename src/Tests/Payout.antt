-- ===== src/Tests/Payout.antt =====
-- helpers/tangopayout.py and helpers/bolt11net.py at concrete inputs.
use si_lnt.Prelude.{◌+◌, ◌≤◌, ◌≡◌, ◌≢◌, ◌⊎◌, refl, true, false, none}
use si_lnt.Prelude.Int.{pos}
use si_lnt.Floats.{milli, milli_mul}
use si_lnt.Tango.Plan.{dust_sats}
use si_lnt.Payout.Plan.{payout_plan, payout_fee, min_change_to_route}
use si_lnt.Payout.Plan.Rule.{payout_plan_lem}

no_threshold : min_change_to_route milli 1000 (pos 0) ≡ none
unfolding min_change_to_route
no_threshold = refl

half_percent :
    let p = payout_plan milli (pos 100000) 5 (pos 100) in
    (p.routed ≡ true) × (p.fee_sats ≡ 500) × (p.net_sats ≡ 99500)
unfolding payout_plan payout_fee milli_mul
half_percent = (refl, refl, refl)

payout_plan_lem_example :
    let p = payout_plan milli (pos 700) 5 (pos 100) in
    ((p.routed ≡ true)
      × (p.gross_sats ≡ 700)
      × (p.gross_sats ≡ p.fee_sats + p.net_sats)
      × (dust_sats ≤ p.net_sats)
      × (100 ≤ p.fee_sats)
      × (milli_mul 700 5 ≤ p.fee_sats)
      × (p.reason ≡ none))
    ⊎ ((p.routed ≡ false)
        × (p.gross_sats ≡ 700)
        × (p.fee_sats ≡ 0)
        × (p.net_sats ≡ 0)
        × (p.reason ≢ none))
payout_plan_lem_example = payout_plan_lem milli 5 (pos 700) (pos 100)
