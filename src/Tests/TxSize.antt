-- ===== src/Tests/TxSize.antt =====
-- helpers/txsize.py at concrete inputs.
use si_lnt.Prelude.{◌+◌, ◌/◌, ◌≡◌, refl, [], ◌∷◌, map, arith}
use si_lnt.Floats.{milli, milli_mul}
use si_lnt.TxSize.{output_vbytes, estimate_vsize, fee_for}
use si_lnt.TxSize.Weight.{tx_weight, estimate_vsize-tx_weight}

-- One taproot input and two taproot outputs: the 154 vbytes of tests/test_txsize.py.
two_outputs : estimate_vsize 1 (43 ∷ 43 ∷ []) 0 ≡ 154
unfolding estimate_vsize
two_outputs = refl

fee_at_three : fee_for milli 154 3000 ≡ 462
unfolding fee_for milli_mul
fee_at_three = refl

fee_at_least_one : fee_for milli 154 0 ≡ 1
unfolding fee_for milli_mul
fee_at_least_one = refl

estimate_vsize-tx_weight_example :
    estimate_vsize 2 (map output_vbytes (34 ∷ 22 ∷ [])) 1 ≡ (tx_weight 2 (34 ∷ 22 ∷ []) 1 + 3) / 4
estimate_vsize-tx_weight_example =
    estimate_vsize-tx_weight 2 (34 ∷ 22 ∷ []) 1 (omega arith) (omega arith) refl
