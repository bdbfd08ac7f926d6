-- ===== src/Tests/Outputs.antt =====
-- The transaction of a round at concrete inputs.
use si_lnt.Prelude.{
  ◌+◌, ◌*◌, ◌≤◌, ◌≡◌, refl, false, not, some, List, [], ◌∷◌, ◌++◌, sum_of, count_if, leb, ◌==◌, ok,
}
use si_lnt.Prelude.Int.{pos}
use si_lnt.Prelude.Text.{codes, lower}
use si_lnt.Prelude.Sort.{insert, sort}
use si_lnt.Floats.{milli, milli_mul}
use si_lnt.TxSize.{estimate_vsize, fee_for}
use si_lnt.Payjoin.Inputs.{PayjoinInput}
use si_lnt.Tango.Plan.{
  Amounts, plan, dust_sats, split_fee, pieces_of, estimate, price, reprice, settle, settle_fees,
}
use si_lnt.Tango.Outputs.{
  one_spk, spks, mix_scripts, outputs_for, canonical, owner_indices, Transaction, assemble,
}
use si_lnt.Tango.Outputs.Sides.{swap_sides, assemble_swap}
use si_lnt.Tango.Outputs.Value.{assemble_lem}

abbrev a_coins : List PayjoinInput
a_coins = record { txid = codes "bb"; vout = 0; amount = 13_749; pub_key = [] } ∷ []

abbrev b_coins : List PayjoinInput
b_coins = record { txid = codes "aa"; vout = 1; amount = 15_930; pub_key = [] } ∷ []

abbrev planned : Amounts
planned = record {
  denom = 13000;
  pieces = 1;
  share = 13000;
  a_in = 13749;
  b_in = 15930;
  a_change = 600;
  b_change = 2781;
  a_fee = 149;
  b_fee = 149;
  fee = 298;
  vsize = 298;
  clean = false;
}

planned_so : plan milli a_coins b_coins 13000 1000 (pos 1) ≡ ok planned
unfolding plan settle_fees settle reprice price estimate split_fee pieces_of estimate_vsize fee_for
    milli_mul
planned_so = refl

-- B's coin is first by its transaction, A's share behind B's by its script.
abbrev signed : Transaction
signed = record {
  vin = (codes "aa", 1) ∷ (codes "bb", 0) ∷ [];
  vout =
      record { value = 600; script_pubkey = codes "c" }
      ∷ record { value = 2781; script_pubkey = codes "d" }
      ∷ record { value = 13000; script_pubkey = codes "f" }
      ∷ record { value = 13000; script_pubkey = codes "g" }
      ∷ [];
}

assembled :
    assemble
      (a_coins ++ b_coins)
      planned
      (one_spk (codes "g"))
      (spks (codes "f" ∷ []))
      (some (codes "c"))
      (some (codes "d"))
    ≡ ok signed
unfolding assemble outputs_for mix_scripts canonical sort insert
assembled = refl

a_second : owner_indices (a_coins ++ b_coins) a_coins ≡ 1 ∷ []
unfolding owner_indices canonical sort insert lower
a_second = refl

assemble_swap_example :
    assemble
      (b_coins ++ a_coins)
      (swap_sides planned)
      (spks (codes "f" ∷ []))
      (one_spk (codes "g"))
      (some (codes "d"))
      (some (codes "c"))
    ≡ ok signed
assemble_swap_example =
    assemble_swap a_coins b_coins planned (one_spk (codes "g")) (spks (codes "f" ∷ []))
      (some (codes "c")) (some (codes "d")) signed assembled

assemble_lem_example :
    (sum_of (λ i. i.amount) (a_coins ++ b_coins) ≡ sum_of (λ o. o.value) signed.vout + 298)
    × (count_if (λ o. not (leb dust_sats o.value)) signed.vout ≡ 0)
    × (2 * 1 ≤ count_if (λ o. o.value == 13000) signed.vout)
assemble_lem_example =
    assemble_lem milli a_coins b_coins 13000 1000 (pos 1) planned (one_spk (codes "g"))
      (spks (codes "f" ∷ [])) (some (codes "c")) (some (codes "d")) signed planned_so assembled
