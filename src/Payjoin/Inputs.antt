-- ===== src/Payjoin/Inputs.antt =====
-- helpers/payjoin_sp.py: a contributed coin, and the canonical order of the inputs.
use si_lnt.Prelude.{ℕ, List}
use si_lnt.Prelude.Text.{Text}

-- `priv_key_tweak` is the signer's and is never sent to the server.
pub record PayjoinInput : Type 0 where
  pub txid : Text
  pub vout : ℕ
  pub amount : ℕ
  pub pub_key : List ℕ
