-- ===== src/Payout/Run/Config.antt =====
-- models.py: what BackendConfig says of paying a change out.
use si_lnt.Prelude.{ℕ, Bool, not, ◌&&◌, is_empty}
use si_lnt.Prelude.Int.{ℤ}
use si_lnt.Prelude.Text.{Text, strip}
use si_lnt.Floats.{Floats}
use si_lnt.Payout.Plan.{payout_offered}

pub record PayoutConfig (fl : Floats) : Type 0 where
  pub tango_change_payout_enabled : Bool
  pub tango_change_sp_address : Text
  pub tango_change_scan_secret : Text
  pub tango_change_payout_wallet_id : Text
  pub tango_change_fee_pct : fl.Rate
  pub tango_change_fee_floor_sats : ℤ
  pub tango_change_min_confirmations : ℕ
  pub tango_change_min_wallet_balance_sats : ℤ

module _ {fl : Floats} (cfg : PayoutConfig fl) (network : Text) where
  -- The method `payout_offered`.
  abbrev pub offered : Bool
  offered = not (is_empty (strip cfg.tango_change_payout_wallet_id)) && payout_offered network

  unfoldable pub tango_payout_ready : Bool
  tango_payout_ready =
      cfg.tango_change_payout_enabled
      && not (is_empty (strip cfg.tango_change_sp_address))
      && not (is_empty (strip cfg.tango_change_scan_secret))
      && not (is_empty (strip cfg.tango_change_payout_wallet_id))
      && offered
