-- ===== src/Plain.antt =====
-- helpers/plain.py: the spend from the BIP-84 addresses (`plan_plain_spend`) and what it is signed
-- as (`build_plain_transaction`).
pub mod Spend
pub mod Scan
use si_lnt.Prelude.{
  ℕ, zero, suc, ◌+◌, ◌-◌, ◌*◌, ◌/◌, Bool, true, false, not, ◌&&◌, ◌||◌, Option, none, some, List,
  [], ◌∷◌, ◌++◌, is_empty, all, any, length, sum_of, max, ltb, leb, ◌==◌, if◌then◌else◌, Result, ok,
  err, ◌>>=◌, ◌>>◌, refuse_if,
}
use si_lnt.Prelude.Int.{ℤ, pos, negsuc, pos_part}
use si_lnt.Prelude.Text.{Text, codes, strip, lower, starts_with, text_eq}
use si_lnt.Prelude.Sort.{sort}
use si_lnt.Prelude.Order.{text_lt, pair_lt}
use si_lnt.Floats.{Floats}
use si_lnt.Bech32.{address_to_scriptpubkey}
use si_lnt.Chains.{recipient_chain_mismatch}

abbrev pub input_vbytes : ℕ
input_vbytes = 68

abbrev pub dest_default_vbytes : ℕ
dest_default_vbytes = 43

abbrev pub change_vbytes : ℕ
change_vbytes = 31

abbrev pub dust_sats : ℕ
dust_sats = 546

-- `_OUTPUT_VBYTES_BY_SCRIPT_LEN`, with its default.
unfoldable pub output_vbytes : ℕ → ℕ
output_vbytes script_len =
    if script_len == 22
    then 31
    else if script_len == 34
    then 43
    else if script_len == 23
    then 32
    else if script_len == 25
    then 34
    else 8 + 1 + script_len

abbrev pub hrp_for : Text → Text
hrp_for network =
    let n = lower network in
    if text_eq n (codes "mainnet")
    then codes "bc"
    else if text_eq n (codes "regtest")
    then codes "bcrt"
    else codes "tb"

-- OVERHEAD_VBYTES of 10.5 and a whole number of vbytes, rounded up.
abbrev pub with_overhead : ℕ → ℕ
with_overhead vbytes = (21 + 2 * vbytes + 1) / 2

abbrev pub is_p2wpkh : Option Text → Bool
is_p2wpkh (some (c ∷ d ∷ rest)) = length (c ∷ d ∷ rest) == 22 && c == 0 && d == 20
is_p2wpkh _ = false

unfoldable pub is_p2wpkh_for_network : Text → Text → Bool
is_p2wpkh_for_network address network =
    let addr = strip address in
    if not (starts_with (lower addr) (hrp_for network ++ codes "1"))
    then false
    else is_p2wpkh (address_to_scriptpubkey addr)

pub record Utxo : Type 0 where
  pub address : Text
  pub txid : Text
  pub vout : ℕ
  pub amount : ℕ
  pub height : ℕ

abbrev pub utxo_before : Utxo → Utxo → Bool
utxo_before u v = pair_lt (u.txid, u.vout) (v.txid, v.vout)

pub data PlainError : Type 0 where
  no_utxos amount_below_dust no_destination wrong_chain bad_destination leaves_dust : PlainError
  not_enough no_change_address bad_change_address no_keys key_missing : PlainError

pub record PlainPlan (fl : Floats) : Type 0 where
  pub destination : Text
  pub destination_script : Option Text
  pub is_silent_payment : Bool
  pub utxos : List Utxo
  pub amount : ℕ
  pub change : ℕ
  pub change_address : Option Text
  pub change_script : Option Text
  pub fee : ℕ
  pub total_input : ℕ
  pub vsize : ℕ
  pub fee_rate_used : fl.Rate
  pub input_count : ℕ
  pub network : Text

abbrev pub is_sp : Text → Bool
is_sp dest = starts_with dest (codes "sp1") || starts_with dest (codes "tsp1")

-- A script that must be there.
abbrev pub script_or : PlainError → Option Text → Result PlainError Text
script_or e none = err e
script_or e (some s) = ok s

-- The destination's script, none for a Silent Payments address, whose output is not known yet.
abbrev pub destination_script_of : (Text → Option Text) → Text → Result PlainError (Option Text)
destination_script_of script_of dest =
    if is_sp dest
    then ok none
    else (script_or bad_destination (script_of dest) >>= λ s. ok (some s))

-- `destination_vbytes`, of the script that it decodes.
unfoldable pub destination_vbytes : Option Text → ℕ
destination_vbytes none = dest_default_vbytes
destination_vbytes (some spk) = output_vbytes (length spk)

-- (amount, change, fee, vsize)
pub record Split : Type 0 where
  pub send_amount : ℕ
  pub change : ℕ
  pub fee : ℕ
  pub vsize : ℕ

-- Everything but the fee, or an amount and its change, which goes to the fee if it is dust.
unfoldable pub split : ℕ → ℕ → ℕ → Option ℤ → Result PlainError Split
split total fee vsize none = do
  refuse_if (ltb total (fee + dust_sats)) leaves_dust
  ok (record { send_amount = total - fee; change = 0; fee = fee; vsize = vsize })
split total fee vsize (some amount) = do
  let sent = pos_part amount
  refuse_if (ltb total (sent + fee)) not_enough
  let change = total - sent - fee
  ok (
      if ltb change dust_sats
      then record {
        send_amount = sent;
        change = 0;
        fee = fee + change;
        vsize = vsize - change_vbytes;
      }
      else record { send_amount = sent; change = change; fee = fee; vsize = vsize })

-- The change that is reckoned with before there is one.
abbrev pub reserved : Option ℤ → ℕ
reserved none = 0
reserved (some _) = change_vbytes

-- `amount is not None and amount < DUST_SATS`
abbrev pub is_dust_amount : Option ℤ → Bool
is_dust_amount none = false
is_dust_amount (some amount) = ltb (pos_part amount) dust_sats

-- The change's script, where there is a change.
unfoldable pub change_script_of :
    (Text → Option Text) → Text → ℕ → Option Text → Result PlainError (Option Text)
change_script_of script_of network zero change_address = ok none
change_script_of script_of network (suc c) none = err no_change_address
change_script_of script_of network (suc c) (some address) = do
  refuse_if (is_empty address) no_change_address
  refuse_if (not (is_p2wpkh_for_network address network)) bad_change_address
  spk ← script_or bad_change_address (script_of address)
  ok (some spk)

-- `script_of` is embit's `address_to_scriptpubkey`, none where it raises.
module _ (fl : Floats) (script_of : Text → Option Text) where
  unfoldable pub plan_plain_spend :
      Text → List Utxo → fl.Rate → Text → Option ℤ → Option Text → Result PlainError (PlainPlan fl)
  plan_plain_spend destination utxos fee_rate network amount change_address = do
    refuse_if (is_empty utxos) no_utxos
    refuse_if (is_dust_amount amount) amount_below_dust
    let dest = strip destination
    refuse_if (is_empty dest) no_destination
    refuse_if (elim (recipient_chain_mismatch dest network) [ none ↦ false | some _ ↦ true ])
        wrong_chain
    dest_script ← destination_script_of script_of dest
    let total = sum_of (λ u. u.amount) utxos
    let ordered = sort utxo_before utxos
    let vsize =
        with_overhead
          (input_vbytes * length ordered + destination_vbytes dest_script + reserved amount)
    let fee = max 1 (fl.ceil_mul vsize fee_rate)
    s ← split total fee vsize amount
    change_script ← change_script_of script_of network s.change change_address
    ok (record {
      destination = dest;
      destination_script = dest_script;
      is_silent_payment = is_sp dest;
      utxos = ordered;
      amount = s.send_amount;
      change = s.change;
      change_address = if s.change == 0 then none else change_address;
      change_script = change_script;
      fee = s.fee;
      total_input = total;
      vsize = s.vsize;
      fee_rate_used = fee_rate;
      input_count = length ordered;
      network = network;
    })
