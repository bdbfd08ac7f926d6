-- ===== src/Plain/Spend.antt =====
-- What a planned spend adds up to.
use si_lnt.Prelude.{
  ℕ, ◌+◌, ◌-◌, ◌*◌, ◌≤◌, ◌≡◌, ◌⊎◌, inl, inr, refl, sym, arith, true, false, Option, none, some,
  List, is_empty, length, sum_of, max, ltb, ◌==◌, if◌then◌else◌, Bool-cases, ok, ok_inj,
  refuse_if-eq-ok, >>=-eq-ok,
}
use si_lnt.Prelude.Int.{ℤ, pos_part}
use si_lnt.Prelude.Text.{Text, strip}
use si_lnt.Prelude.Sort.{sort}
use si_lnt.Floats.{Floats}
use si_lnt.Chains.{recipient_chain_mismatch}
use si_lnt.Plain.{
  Utxo, utxo_before, no_utxos, amount_below_dust, no_destination, wrong_chain, leaves_dust,
  not_enough, PlainPlan, destination_script_of, destination_vbytes, Split, split, is_dust_amount,
  reserved, change_script_of, with_overhead, input_vbytes, change_vbytes, dust_sats,
  plan_plain_spend,
}

-- The size of the transaction that a plan makes.
abbrev pub real_vsize : {fl : Floats} → PlainPlan fl → ℕ
real_vsize p = with_overhead (
    input_vbytes * length p.utxos
    + destination_vbytes p.destination_script
    + (if p.change == 0 then 0 else change_vbytes))

-- The change that is dropped is 31 vbytes, whatever else there is.
dropped :
    {vsize : ℕ} (body : ℕ)
    → vsize ≡ with_overhead (body + change_vbytes)
    → vsize - change_vbytes ≡ with_overhead (body + 0)
dropped body e = rw e (grind arith)

record IsSplit (total fee vsize : ℕ) (amount : Option ℤ) (s : Split) : Type 0 where
  balanced : total ≡ s.send_amount + s.change + s.fee
  sent : is_dust_amount amount ≡ false → dust_sats ≤ s.send_amount
  change_kept : (s.change ≡ 0) ⊎ (dust_sats ≤ s.change)
  fee_kept : fee ≤ s.fee
  smaller : s.vsize ≤ vsize
  sized :
      (body : ℕ)
      → vsize ≡ with_overhead (body + reserved amount)
      → s.vsize ≡ with_overhead (body + (if s.change == 0 then 0 else change_vbytes))

split-IsSplit :
    (total fee vsize : ℕ) (amount : Option ℤ) {s : Split}
    → split total fee vsize amount ≡ ok s
    → IsSplit total fee vsize amount s
unfolding split
split-IsSplit total fee vsize none h =
    let (covered, e) = refuse_if-eq-ok (ltb total (fee + dust_sats)) leaves_dust _ h in
    let same = ok_inj e in
    rw (sym same) (record {
      balanced = ground (arith, covered);
      sent = λ big. ground (arith, covered);
      change_kept = inl refl;
      fee_kept = omega arith;
      smaller = omega arith;
      sized = λ body e. e;
    })
split-IsSplit total fee vsize (some amount) h =
    let sent = pos_part amount in
    let (covered, e) = refuse_if-eq-ok (ltb total (sent + fee)) not_enough _ h in
    let same = ok_inj e in
    let change = total - sent - fee in
    elim (Bool-cases (ltb change dust_sats)) [
      | inl small ↦
          let done = rw small at same in
          rw (sym done) (record {
            balanced = ground (arith, covered);
            sent = λ big. ground (arith, big);
            change_kept = inl refl;
            fee_kept = omega arith;
            smaller = omega arith;
            sized = λ body e. dropped body e;
          })
      | inr kept ↦
          let done = rw kept at same in
          rw (sym done) (record {
            balanced = ground (arith, covered);
            sent = λ big. ground (arith, big);
            change_kept = inr (ground (arith, kept));
            fee_kept = omega arith;
            smaller = omega arith;
            sized = λ body e. ground (arith, kept, e);
          })
    ]

module _ {fl : Floats} (script_of : Text → Option Text) where
  -- Whatever plan is returned: the coins are the amount, the change and the fee; the amount is not
  -- dust, nor is the change if there is one; the size is that of the transaction that is made, and
  -- the fee is at least the fee for it at the chosen rate.
  pub plan_plain_spend_lem :
      (destination : Text) (utxos : List Utxo) (fee_rate : fl.Rate) (network : Text)
      (amount : Option ℤ) (change_address : Option Text) (p : PlainPlan fl)
      → plan_plain_spend fl script_of destination utxos fee_rate network amount change_address
        ≡ ok p
      → (sum_of (λ u. u.amount) utxos ≡ p.amount + p.change + p.fee)
        × (dust_sats ≤ p.amount)
        × ((p.change ≡ 0) ⊎ (dust_sats ≤ p.change))
        × (p.vsize ≡ real_vsize p)
        × (max 1 (fl.ceil_mul p.vsize fee_rate) ≤ p.fee)
  unfolding plan_plain_spend
  plan_plain_spend_lem destination utxos fee_rate network amount change_address p h =
      let dest = strip destination in
      let (_, h1) = refuse_if-eq-ok (is_empty utxos) no_utxos _ h in
      let (big, h2) = refuse_if-eq-ok (is_dust_amount amount) amount_below_dust _ h1 in
      let (_, h3) = refuse_if-eq-ok (is_empty dest) no_destination _ h2 in
      let (_, h4) =
        refuse_if-eq-ok
          (elim (recipient_chain_mismatch dest network) [ none ↦ false | some _ ↦ true ])
          wrong_chain _ h3 in
      let (spk, _, h5) = >>=-eq-ok (destination_script_of script_of dest) _ h4 in
      let ordered = sort utxo_before utxos in
      let body = input_vbytes * length ordered + destination_vbytes spk in
      let vsize = with_overhead (body + (reserved amount)) in
      let fee = max 1 (fl.ceil_mul vsize fee_rate) in
      let (s, parts, h6) = >>=-eq-ok (split (sum_of (λ u. u.amount) utxos) fee vsize amount) _ h5 in
      let (script, _, h7) =
        >>=-eq-ok (change_script_of script_of network s.change change_address) _ h6 in
      let v = split-IsSplit _ fee vsize amount parts in
      let cheaper = fl.ceil_mul_mono fee_rate s.vsize vsize v.smaller in
      let same = ok_inj h7 in
      rw (sym same) (
        v.balanced,
        v.sent big,
        v.change_kept,
        v.sized body refl,
        omega (arith, v.fee_kept, cheaper),
      )
