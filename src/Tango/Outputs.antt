-- ===== src/Tango/Outputs.antt =====
-- helpers/tango.py: the outputs of a round and its unsigned transaction (`mix_scripts`,
-- `outputs_for`, `assemble`), with the canonical order of inputs of helpers/payjoin_sp.py.
pub mod Sides
pub mod Value
use si_lnt.Prelude.{
  ℕ, suc, ◌+◌, Bool, true, false, not, ◌&&◌, ◌||◌, Option, none, some, List, [], ◌∷◌, ◌++◌, map,
  any, length, ltb, ◌==◌, if◌then◌else◌, Result, ok, err, ◌>>=◌, ◌>>◌, refuse_if,
}
use si_lnt.Prelude.Text.{Text, text_eq, lower}
use si_lnt.Prelude.Sort.{sort}
use si_lnt.Prelude.Order.{text_lt, pair_lt}
use si_lnt.Payjoin.Inputs.{PayjoinInput}
use si_lnt.Tango.Plan.{Amounts}

-- A side's derived scripts: none, one as bytes, or a list.
pub data MixSpk : Type 0 where
  no_spk : MixSpk
  one_spk : Text → MixSpk
  spks : List Text → MixSpk

unfoldable pub mix_scripts : MixSpk → List Text
mix_scripts no_spk = []
mix_scripts (one_spk spk) = spk ∷ []
mix_scripts (spks list) = list

-- A script is its bytes.
pub record TransactionOutput : Type 0 where
  pub value : ℕ
  pub script_pubkey : Text

-- The sort key `(o.value, bytes(o.script_pubkey.data))`.
abbrev pub output_before : TransactionOutput → TransactionOutput → Bool
output_before o p =
    if o.value == p.value then text_lt o.script_pubkey p.script_pubkey else ltb o.value p.value

pub data OutputsError : Type 0 where
  a_count b_count a_script_missing b_script_missing : OutputsError

-- The output of one side's change, if it has one.
abbrev pub change_out :
    ℕ → OutputsError → Option Text → Result OutputsError (List TransactionOutput)
change_out change missing spk = if change == 0 then ok [] else elim spk [
  | none ↦ err missing
  | some script ↦ ok (record { value = change; script_pubkey = script } ∷ [])
]

-- `int(amounts.get("pieces") or 1)` and `int(amounts.get("share") or amounts["denom"])`.
abbrev pub value_or : ℕ → ℕ → ℕ
value_or n m = if n == 0 then m else n

abbrev pub mixed : ℕ → List Text → List TransactionOutput
mixed share scripts = map (λ s. record { value = share; script_pubkey = s }) scripts

unfoldable pub outputs_for :
    Amounts
    → MixSpk
    → MixSpk
    → Option Text
    → Option Text
    → Result OutputsError (List TransactionOutput)
outputs_for amounts a_mix_spk b_mix_spk a_change_spk b_change_spk = do
  let pieces = value_or amounts.pieces 1
  let share = value_or amounts.share amounts.denom
  let a_spks = mix_scripts a_mix_spk
  let b_spks = mix_scripts b_mix_spk
  refuse_if (not (length a_spks == pieces)) a_count
  refuse_if (not (length b_spks == pieces)) b_count
  a_out ← change_out amounts.a_change a_script_missing a_change_spk
  b_out ← change_out amounts.b_change b_script_missing b_change_spk
  ok (sort output_before ((mixed share a_spks ++ mixed share b_spks) ++ (a_out ++ b_out)))

-- The sort key `(i.txid, int(i.vout))` of `canonical`.
abbrev pub outpoint_of : PayjoinInput → Text × ℕ
outpoint_of i = (i.txid, i.vout)

unfoldable pub canonical : List PayjoinInput → List PayjoinInput
canonical inputs = sort (λ i j. pair_lt (outpoint_of i) (outpoint_of j)) inputs

-- The positions, in the canonical order and counted from `n` on, of the coins in `mine`.
abbrev pub positions : (PayjoinInput → Bool) → ℕ → List PayjoinInput → List ℕ
positions mine n [] = []
positions mine n (i ∷ rest) =
    let later = positions mine (n + 1) rest in if mine i then n ∷ later else later

abbrev pub is_own : List PayjoinInput → PayjoinInput → Bool
is_own owned i = any (λ j. text_eq (lower i.txid) (lower j.txid) && i.vout == j.vout) owned

unfoldable pub owner_indices : List PayjoinInput → List PayjoinInput → List ℕ
owner_indices inputs owned = positions (is_own owned) 0 (canonical inputs)

-- An unsigned transaction: the outpoints that it spends, and its outputs.
pub record Transaction : Type 0 where
  pub vin : List (Text × ℕ)
  pub vout : List TransactionOutput

unfoldable pub assemble :
    List PayjoinInput
    → Amounts
    → MixSpk
    → MixSpk
    → Option Text
    → Option Text
    → Result OutputsError Transaction
assemble inputs amounts a_mix_spk b_mix_spk a_change_spk b_change_spk = do
  outs ← outputs_for amounts a_mix_spk b_mix_spk a_change_spk b_change_spk
  ok (record { vin = map outpoint_of (canonical inputs); vout = outs })
