-- ===== src/Payout/Plan.antt =====
-- helpers/tangopayout.py: the fee for paying a change out, and the least change worth it. The
-- percentage is not negative, as `max(0.0, float(fee_pct))` leaves it.
pub mod Rule
use si_lnt.Prelude.{
  ℕ, zero, suc, ◌+◌, ◌-◌, ◌*◌, ◌/◌, Bool, true, false, Option, none, some, is_empty, max, ltb, ◌==◌,
  if◌then◌else◌,
}
use si_lnt.Prelude.Int.{ℤ, pos, pos_part}
use si_lnt.Prelude.Text.{Text, codes, strip, lower, text_eq}
use si_lnt.Floats.{Floats}
use si_lnt.Tango.Plan.{dust_sats}

-- `payout_offered`: the chains of PAYOUT_NETWORKS.
unfoldable pub payout_offered : Text → Bool
payout_offered network = text_eq (lower (strip network)) (codes "mainnet")

pub data Pin : Type 0 where
  unpinned pin_ok pin_mismatch : Pin

-- Whether the stored change address is the pinned one; the reason is told by the state.
unfoldable pub payout_address_pin : Text → Text → Pin
payout_address_pin configured pinned =
    let want = lower (strip pinned) in
    let have = lower (strip configured) in
    if is_empty want then unpinned else if text_eq want have then pin_ok else pin_mismatch

pub data Reason : Type 0 where
  no_change below_dust : Reason
  too_small : ℕ → Reason

pub record PayoutPlan : Type 0 where
  pub gross_sats : ℕ
  pub fee_sats : ℕ
  pub net_sats : ℕ
  pub routed : Bool
  pub reason : Option Reason

unfoldable pub not_routed : ℕ → Reason → PayoutPlan
not_routed gross reason = record {
  gross_sats = gross;
  fee_sats = 0;
  net_sats = 0;
  routed = false;
  reason = some reason;
}

module _ (fl : Floats) where
  -- `max(math.ceil(change * pct) if pct else 0, floor)`
  unfoldable pub payout_fee : ℕ → fl.Rate → ℕ → ℕ
  payout_fee change pct floor = max (if fl.is_zero pct then 0 else fl.ceil_mul change pct) floor

  -- What `int(change_sats or 0) <= 0` and `max(0, int(fee_floor_sats))` test is the positive part.
  unfoldable pub payout_plan : ℤ → fl.Rate → ℤ → PayoutPlan
  unfolding not_routed
  payout_plan change_sats pct fee_floor_sats =
      let change = pos_part change_sats in
      let fee = payout_fee change pct (pos_part fee_floor_sats) in
      if change == 0
      then not_routed 0 no_change
      else if ltb change dust_sats
      then not_routed change below_dust
      else if ltb change (fee + dust_sats)
      then not_routed change (too_small fee)
      else record {
        gross_sats = change;
        fee_sats = fee;
        net_sats = change - fee;
        routed = true;
        reason = none;
      }

  -- The inner function of `min_change_to_route`.
  unfoldable pub routes : fl.Rate → ℤ → ℕ → Bool
  routes pct floor change = (payout_plan (pos change) pct floor).routed

  -- The `for` loop: doubles until a change is routed.
  unfoldable pub double : fl.Rate → ℤ → ℕ → ℕ → ℕ → Option (ℕ × ℕ)
  double pct floor zero lo hi = none
  double pct floor (suc rounds) lo hi = elim (routes pct floor hi) [
    | true ↦ some (lo, hi)
    | false ↦ double pct floor rounds hi (hi * 2)
  ]

  -- The `while` loop, on fuel that its distance gives.
  unfoldable pub bisect : fl.Rate → ℤ → ℕ → ℕ → ℕ → ℕ
  bisect pct floor zero lo hi = hi
  bisect pct floor (suc fuel) lo hi = elim (ltb (lo + 1) hi) [
    | false ↦ hi
    | true ↦
        let mid = (lo + hi) / 2 in
        elim (routes pct floor mid) [
          | true ↦ bisect pct floor fuel lo mid
          | false ↦ bisect pct floor fuel mid hi
        ]
  ]

  unfoldable pub finish : fl.Rate → ℤ → Option (ℕ × ℕ) → Option ℕ
  finish pct floor none = none
  finish pct floor (some (lo, hi)) = some (bisect pct floor (hi - lo) lo hi)

  unfoldable pub min_change_to_route : fl.Rate → ℤ → Option ℕ
  min_change_to_route pct floor =
      if fl.lt_one pct
      then (if routes pct floor dust_sats
          then some dust_sats
          else finish pct floor
              (double pct floor 64 dust_sats (dust_sats + max 1 (pos_part floor))))
      else none
