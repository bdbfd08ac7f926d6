-- ===== src/Payjoin/Wire.antt =====
-- helpers/payjoin_sp.py: the shape of what a party sends (`validate_wire_input`,
-- `validate_wire_inputs`, `validate_spk`), and `_tango_mix_spks` of views_api.py.
pub mod Shape
use si_lnt.Prelude.{
  is_empty, ℕ, zero, suc, ◌≡◌, Bool, true, false, not, ◌&&◌, ◌||◌, List, [], ◌∷◌, map, any, all,
  length, leb, ◌==◌, if◌then◌else◌, Result, ok, err, ◌>>=◌, ◌>>◌, refuse_if,
}
use si_lnt.Prelude.Int.{ℤ, pos, negsuc}
use si_lnt.Prelude.Text.{Text, text_eq, lower, codes, starts_with}
use si_lnt.Payjoin.Inputs.{PayjoinInput}

-- A coin as it arrives.
pub record WireInput : Type 0 where
  pub txid : Text
  pub vout : ℤ
  pub pub_key : Text
  pub amount : ℤ

pub data WireError : Type 0 where
  bad_txid negative_vout bad_pub_key no_amount no_coin_sent listed_twice : WireError
  bad_spk wrong_count same_address : WireError

abbrev pub is_hex : ℕ → Bool
is_hex c = (leb b'0' c && leb c b'9') || (leb b'a' c && leb c b'f') || (leb b'A' c && leb c b'F')

-- `[0-9a-fA-F]{n}$`: the `$` of a Python pattern also stands before a newline at the end.
unfoldable pub hex_run : ℕ → Text → Bool
hex_run zero [] = true
hex_run zero (c ∷ []) = c == 10
hex_run zero (c ∷ d ∷ s) = false
hex_run (suc n) [] = false
hex_run (suc n) (c ∷ s) = is_hex c && hex_run n s

-- `_HEX64` and `_P2TR_SPK`
abbrev pub is_hex64 : Text → Bool
is_hex64 s = hex_run 64 s

abbrev pub is_p2tr_spk : Text → Bool
is_p2tr_spk (a ∷ b ∷ c ∷ d ∷ s) = starts_with (a ∷ b ∷ c ∷ d ∷ []) (codes "5120") && hex_run 64 s
is_p2tr_spk _ = false

abbrev pub vout_of : ℤ → Result WireError ℕ
vout_of (pos n) = ok n
vout_of (negsuc n) = err negative_vout

abbrev pub amount_of : ℤ → Result WireError ℕ
amount_of (pos (suc n)) = ok (suc n)
amount_of _ = err no_amount

-- The row, with its numbers as they are read. The letter case of the txid and the key is as it was
-- sent: outpoint_key lowers the txid where outpoints are compared, and what decodes the key reads
-- both cases.
unfoldable pub validate_wire_input : WireInput → Result WireError PayjoinInput
validate_wire_input i = do
  refuse_if (not (is_hex64 i.txid)) bad_txid
  vout ← vout_of i.vout
  refuse_if (not (is_hex64 i.pub_key)) bad_pub_key
  amount ← amount_of i.amount
  ok (record { txid = i.txid; vout = vout; amount = amount; pub_key = i.pub_key })

unfoldable pub validate_each : List WireInput → Result WireError (List PayjoinInput)
validate_each [] = ok []
validate_each (i ∷ rest) =
    let later = validate_each rest in do row ← validate_wire_input i; rows ← later; ok (row ∷ rows)

-- One outpoint, spelled as the check for duplicates spells it.
abbrev pub same_coin : PayjoinInput → PayjoinInput → Bool
same_coin x y = text_eq (lower x.txid) (lower y.txid) && x.vout == y.vout

abbrev pub has_twice : List PayjoinInput → Bool
has_twice [] = false
has_twice (x ∷ xs) = any (same_coin x) xs || has_twice xs

unfoldable pub validate_wire_inputs : List WireInput → Result WireError (List PayjoinInput)
validate_wire_inputs rows = do
  refuse_if (is_empty rows) no_coin_sent
  read ← validate_each rows
  refuse_if (has_twice read) listed_twice
  ok read

abbrev pub text_twice : List Text → Bool
text_twice [] = false
text_twice (x ∷ xs) = any (text_eq x) xs || text_twice xs

-- `n == int(pieces or 1)`
abbrev pub is_count : ℤ → ℕ → Bool
is_count (pos zero) n = n == 1
is_count (pos (suc m)) n = n == suc m
is_count (negsuc m) n = false

-- `_tango_mix_spks`
unfoldable pub tango_mix_spks : List Text → ℤ → Result WireError (List Text)
tango_mix_spks spks pieces = do
  refuse_if (not (is_count pieces (length spks))) wrong_count
  refuse_if (not (all is_p2tr_spk spks)) bad_spk
  refuse_if (text_twice (map lower spks)) same_address
  ok (map lower spks)
