-- ===== src/Payout/Run/Liquidity.antt =====
-- views_api.py: what the payout wallet can still cover (`tango_payout_liquidity`), and the revival
-- of payouts that stopped when it recovers (`check_tango_payout_liquidity`).
use si_lnt.Prelude.{
  ℕ, ◌/◌, Bool, false, not, Option, none, some, List, is_empty, if◌then◌else◌, if_keeps, Bool-cases,
  inl, inr,
}
use si_lnt.Prelude.Int.{pos, pos_part}
use si_lnt.Prelude.Text.{Text, codes, strip, text_eq}
use si_lnt.Floats.{Floats}
use si_lnt.Payout.Run.{available_sats, can_route, requeue_on_recovery}
use si_lnt.Payout.Run.Config.{PayoutConfig}
use si_lnt.Payout.Run.Queue.{Payout, tango_payout_totals, requeue_failed_tango_payouts}

pub record PayoutLiquidity : Type 0 where
  pub threshold_sats : ℕ
  pub balance_sats : Option ℕ
  pub owed_sats : ℕ
  pub available_sats : ℕ
  pub can_pay : Bool

abbrev pub unread : ℕ → PayoutLiquidity
unread threshold = record {
  threshold_sats = threshold;
  balance_sats = none;
  owed_sats = 0;
  available_sats = 0;
  can_pay = false;
}

abbrev pub liquidity_of : Text → List Payout → ℕ → Option ℕ → PayoutLiquidity
liquidity_of network rows threshold none = unread threshold
liquidity_of network rows threshold (some msat) =
    let balance = msat / 1000 in
    let owed = (tango_payout_totals network rows).owed_sats in
    let available = available_sats balance owed in
    record {
      threshold_sats = threshold;
      balance_sats = some balance;
      owed_sats = owed;
      available_sats = available;
      can_pay = can_route available (pos threshold);
    }

module _ {fl : Floats} (cfg : PayoutConfig fl) (balance_msat : Option ℕ) where
  -- `balance_msat` is that of the wallet, if it can be read.
  unfoldable pub tango_payout_liquidity : Text → List Payout → PayoutLiquidity
  tango_payout_liquidity network rows =
      let threshold = pos_part cfg.tango_change_min_wallet_balance_sats in
      if is_empty (strip cfg.tango_change_payout_wallet_id)
      then unread threshold
      else liquidity_of network rows threshold balance_msat

  -- The rows, whether the wallet was last seen above its floor, and the balances that were read.
  unfoldable pub check_tango_payout_liquidity :
      ℕ → List Payout → Option Bool → List Payout × Option Bool × (Text → Option ℕ)
  check_tango_payout_liquidity now rows was_ok =
      let state = tango_payout_liquidity (codes "mainnet") rows in
      if not cfg.tango_change_payout_enabled then (rows, was_ok, λ network. none) else (
        (if requeue_on_recovery was_ok state.can_pay
            then requeue_failed_tango_payouts (codes "mainnet") now rows
            else rows),
        some state.can_pay,
        λ network. if text_eq network (codes "mainnet") then state.balance_sats else none,
      )

-- What holds of a table and survives the revival holds behind the check.
pub check_keeps :
    {fl : Floats} (P : List Payout → Type 0) (cfg : PayoutConfig fl) (msat : Option ℕ) (now : ℕ)
    (rows : List Payout) (was_ok : Option Bool)
    → P rows
    → P (requeue_failed_tango_payouts (codes "mainnet") now rows)
    → P (check_tango_payout_liquidity cfg msat now rows was_ok).0
unfolding check_tango_payout_liquidity
check_keeps P cfg msat now rows was_ok h revived =
    elim (Bool-cases cfg.tango_change_payout_enabled) [
      | inl on ↦ rw on (if_keeps P _ revived h)
      | inr off ↦ rw off h
    ]
