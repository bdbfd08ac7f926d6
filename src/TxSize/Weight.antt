-- ===== src/TxSize/Weight.antt =====
-- The size formula of helpers/txsize.py against the serialisation it abbreviates.
use si_lnt.Prelude.{
  ℕ, ◌+◌, ◌*◌, ◌/◌, ◌≤◌, ◌<◌, ◌≡◌, refl, Bool, true, List, [], ◌∷◌, map, all, length, arith, sum,
  sum_of, ltb, lt→ltb, and-true, if◌then◌else◌,
}
use si_lnt.Floats.{Floats}
use si_lnt.TxSize.{output_vbytes, estimate_vsize, fee_for}

-- How many bytes a count or a length takes.
abbrev pub compact_size : ℕ → ℕ
compact_size n =
    if ltb n 253 then 1 else if ltb n 0x1_0000 then 3 else if ltb n 0x1_0000_0000 then 5 else 9

-- An input: its transaction and index, an empty script and the sequence number.
abbrev input_bytes : ℕ
input_bytes = 32 + 4 + compact_size 0 + 4

-- An output: its value, and its script behind its length.
abbrev output_bytes : ℕ → ℕ
output_bytes len = 8 + compact_size len + len

-- Version, inputs, outputs and lock time.
abbrev base_bytes : ℕ → List ℕ → ℕ
base_bytes n_inputs script_lens =
    4
    + compact_size n_inputs
    + input_bytes * n_inputs
    + compact_size (length script_lens)
    + sum_of output_bytes script_lens
    + 4

-- Marker and flag; one signature of 64 bytes for a taproot input, and one of 72 with a key of 33
-- for one of P2WPKH.
abbrev witness_bytes : ℕ → ℕ → ℕ
witness_bytes n_taproot n_p2wpkh = 2 + (1 + 1 + 64) * n_taproot + (1 + 1 + 72 + 1 + 33) * n_p2wpkh

-- The weight of BIP-141: every byte but those of the witness counts four times.
pub tx_weight : ℕ → List ℕ → ℕ → ℕ
tx_weight n_taproot script_lens n_p2wpkh =
    4 * base_bytes (n_taproot + n_p2wpkh) script_lens + witness_bytes n_taproot n_p2wpkh

output_vbytes-eq : (len : ℕ) → output_vbytes len ≡ 8 + 1 + len
unfolding output_vbytes
output_vbytes-eq len = ground arith

-- A script whose length takes one byte.
abbrev pub are_short : List ℕ → Bool
are_short lens = all (λ len. ltb len 253) lens

sum-output_vbytes :
    (lens : List ℕ)
    → are_short lens ≡ true
    → sum (map output_vbytes lens) ≡ sum_of output_bytes lens
sum-output_vbytes [] short = refl
sum-output_vbytes (len ∷ lens) short =
    let (one, more) = and-true (ltb len 253) _ short in
    rw one (omega (arith, output_vbytes-eq len, sum-output_vbytes lens more))

one_byte : (n : ℕ) → n < 253 → compact_size n ≡ 1
one_byte n h = rw (lt→ltb n 253 h) refl

-- Where the inputs, the outputs and the length of each script are fewer than 253, the estimate is
-- the weight of the transaction divided by four and rounded up.
pub estimate_vsize-tx_weight :
    (n : ℕ) (lens : List ℕ) (m : ℕ)
    → n + m < 253
    → length lens < 253
    → are_short lens ≡ true
    → estimate_vsize n (map output_vbytes lens) m ≡ (tx_weight n lens m + 3) / 4
unfolding estimate_vsize tx_weight
estimate_vsize-tx_weight n lens m few_inputs few_outputs short = omega (
  arith,
  sum-output_vbytes lens short,
  one_byte (n + m) few_inputs,
  one_byte (length lens) few_outputs,
)

pub estimate_vsize_mono :
    (n : ℕ) (xs ys : List ℕ) (m : ℕ)
    → sum xs ≤ sum ys
    → estimate_vsize n xs m ≤ estimate_vsize n ys m
unfolding estimate_vsize
estimate_vsize_mono n xs ys m h = omega arith

module _ (fl : Floats) where
  pub fee_for_mono : (r : fl.Rate) (v w : ℕ) → v ≤ w → fee_for fl v r ≤ fee_for fl w r
  unfolding fee_for
  fee_for_mono r v w h = omega (arith, fl.ceil_mul_mono r v w h)

  pub fee_for-pos : (r : fl.Rate) (v : ℕ) → 1 ≤ fee_for fl v r
  unfolding fee_for
  fee_for-pos r v = omega arith
