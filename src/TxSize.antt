-- ===== src/TxSize.antt =====
-- helpers/txsize.py: the size of a transaction and the fee for it. The constants are kept in half
-- vbytes, since two of them end in .5 and doubles hold such sums exactly.
pub mod Weight
use si_lnt.Prelude.{ℕ, ◌+◌, ◌*◌, ◌/◌, List, max, sum, ◌==◌, if◌then◌else◌}
use si_lnt.Floats.{Floats}

-- OVERHEAD_VBYTES = 10.5
abbrev pub overhead_half_vbytes : ℕ
overhead_half_vbytes = 21

-- TAPROOT_INPUT_VBYTES = 57.5
abbrev pub taproot_input_half_vbytes : ℕ
taproot_input_half_vbytes = 115

-- P2WPKH_INPUT_VBYTES = 68
abbrev pub p2wpkh_input_half_vbytes : ℕ
p2wpkh_input_half_vbytes = 136

abbrev pub taproot_output_vbytes : ℕ
taproot_output_vbytes = 43

abbrev pub p2wpkh_output_vbytes : ℕ
p2wpkh_output_vbytes = 31

-- The table by script length, with its default. The caller has the script, of which only the
-- length counts.
unfoldable pub output_vbytes : ℕ → ℕ
output_vbytes script_len =
    if script_len == 22
    then 31
    else if script_len == 23
    then 32
    else if script_len == 25
    then 34
    else if script_len == 34
    then 43
    else 8 + 1 + script_len

-- `math.ceil` of a sum of halves.
unfoldable pub ceil_half : ℕ → ℕ
ceil_half h = (h + 1) / 2

unfoldable pub estimate_vsize : ℕ → List ℕ → ℕ → ℕ
unfolding ceil_half
estimate_vsize n_taproot_inputs output_sizes n_p2wpkh_inputs = ceil_half (
    overhead_half_vbytes
    + taproot_input_half_vbytes * n_taproot_inputs
    + p2wpkh_input_half_vbytes * n_p2wpkh_inputs
    + 2 * sum output_sizes)

module _ (fl : Floats) where
  unfoldable pub fee_for : ℕ → fl.Rate → ℕ
  fee_for vsize fee_rate = max 1 (fl.ceil_mul vsize fee_rate)
