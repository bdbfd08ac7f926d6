-- ===== src/Payout/Plan/Rule.antt =====
-- What `payout_plan` promises about the fee and what is left.
use si_lnt.Prelude.{ℕ, ◌+◌, ◌≤◌, ◌≡◌, ◌≢◌, ◌↔◌, ◌⊎◌, inl, inr, arith, true, false, none, Bool-cases}
use si_lnt.Prelude.Int.{ℤ, pos_part}
use si_lnt.Floats.{Floats}
use si_lnt.Tango.Plan.{dust_sats}
use si_lnt.Payout.Plan.{payout_fee, payout_plan, routes}

module _ (fl : Floats) (pct : fl.Rate) where
  pub payout_fee-ge :
      (change floor : ℕ)
      → (fl.ceil_mul change pct ≤ payout_fee fl change pct floor)
        × (floor ≤ payout_fee fl change pct floor)
  unfolding payout_fee
  payout_fee-ge change floor = elim (Bool-cases (fl.is_zero pct)) [
    | inl z ↦ (omega (arith, fl.ceil_mul_zero pct change z), omega arith)
    | inr z ↦ rw z (omega arith, omega arith)
  ]

  -- One more satoshi of change costs at most one more satoshi of fee, below 100 %.
  payout_fee-step :
      (change floor : ℕ)
      → fl.lt_one pct ≡ true
      → payout_fee fl (change + 1) pct floor ≤ payout_fee fl change pct floor + 1
  unfolding payout_fee
  payout_fee-step change floor h = elim (Bool-cases (fl.is_zero pct)) [
    | inl z ↦ rw z (omega arith)
    | inr z ↦ rw z (omega (arith, fl.ceil_mul_step pct change h))
  ]

  -- A payout that goes leaves at least the dust limit, and splits the change into the fee, which
  -- is never below the floor or the percentage, and the rest. One that does not go charges
  -- nothing, keeps the change whole and names its reason.
  pub payout_plan_lem :
      (change floor : ℤ)
      → let p = payout_plan fl change pct floor in
        ((p.routed ≡ true)
          × (p.gross_sats ≡ pos_part change)
          × (p.gross_sats ≡ p.fee_sats + p.net_sats)
          × (dust_sats ≤ p.net_sats)
          × (pos_part floor ≤ p.fee_sats)
          × (fl.ceil_mul (pos_part change) pct ≤ p.fee_sats)
          × (p.reason ≡ none))
        ⊎ ((p.routed ≡ false)
            × (p.gross_sats ≡ pos_part change)
            × (p.fee_sats ≡ 0)
            × (p.net_sats ≡ 0)
            × (p.reason ≢ none))
  unfolding payout_plan
  payout_plan_lem change floor =
      let enough = payout_fee-ge (pos_part change) (pos_part floor) in ground arith

  pub routes_iff :
      (floor : ℤ) (change : ℕ)
      → (routes fl pct floor change ≡ true)
        ↔ (payout_fee fl change pct (pos_part floor) + dust_sats ≤ change)
  unfolding routes payout_plan
  routes_iff floor change = ground arith

  pub routes_suc :
      (floor : ℤ) (change : ℕ)
      → fl.lt_one pct ≡ true
      → routes fl pct floor change ≡ true
      → routes fl pct floor (change + 1) ≡ true
  routes_suc floor change h r =
      (routes_iff floor (change + 1)).1
        (omega (arith, (routes_iff floor change).0 r, payout_fee-step change (pos_part floor) h))
