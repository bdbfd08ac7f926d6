-- ===== src/Tango/Outputs/Sides.antt =====
-- The transaction does not tell which side is which.
use si_lnt.Prelude.{
  ℕ, ◌≡◌, refl, sym, ap, ◌∙◌, arith, Bool, not, Option, none, some, List, [], ◌∷◌, ◌++◌, map,
  length, ◌==◌, Bool-cases, inl, inr, ok, refuse_if-eq-ok, >>=-eq-ok,
}
use si_lnt.Prelude.Text.{Text}
use si_lnt.Prelude.Sort.{sort, insert}
use si_lnt.Prelude.Order.{
  IsLinear, text_lt-IsLinear, pair_lt, pair_lt-IsLinear, sort_swap, sort_parts,
}
use si_lnt.Payjoin.Inputs.{PayjoinInput}
use si_lnt.Tango.Plan.{Amounts}
use si_lnt.Tango.Outputs.{
  MixSpk, mix_scripts, TransactionOutput, output_before, OutputsError, a_count, b_count,
  a_script_missing, b_script_missing, change_out, value_or, mixed, outputs_for, outpoint_of,
  canonical, Transaction, assemble,
}

output_before-IsLinear : IsLinear output_before
output_before-IsLinear = record {
  asym = λ o p h. ground (arith, h, text_lt-IsLinear.asym o.script_pubkey p.script_pubkey);
  tri = λ o p h h'.
      let value : o.value ≡ p.value = ground (arith, h, h') in
      let script : o.script_pubkey ≡ p.script_pubkey =
        text_lt-IsLinear.tri o.script_pubkey p.script_pubkey (ground (arith, h, value))
          (ground (arith, h', value)) in
      cc (value, script);
  between = λ o p q h h'.
      ground
        (arith, h, h', text_lt-IsLinear.between o.script_pubkey p.script_pubkey q.script_pubkey);
}

module _ {A B : Type 0} (before : B → B → Bool) (f : A → B) where
  map-insert :
      (x : A) (xs : List A)
      → map f (insert (λ x y. before (f x) (f y)) x xs) ≡ insert before (f x) (map f xs)
  unfolding insert
  map-insert x [] = refl
  map-insert x (y ∷ ys) = elim (Bool-cases (before (f y) (f x))) [
    | inl e ↦ rw e (ap (λ l. f y ∷ l) (map-insert x ys))
    | inr e ↦ rw e refl
  ]

  -- Sorting by a key, and then reading the key.
  map-sort : (xs : List A) → map f (sort (λ x y. before (f x) (f y)) xs) ≡ sort before (map f xs)
  unfolding sort
  map-sort [] = refl
  map-sort (x ∷ xs) = map-insert x _ ∙ ap (insert before (f x)) (map-sort xs)

map-append : {A B : Type 0} (f : A → B) (xs ys : List A) → map f (xs ++ ys) ≡ map f xs ++ map f ys
map-append f [] ys = refl
map-append f (x ∷ xs) ys = ap (λ l. f x ∷ l) (map-append f xs ys)

-- The amounts as the other side sees them.
abbrev pub swap_sides : Amounts → Amounts
swap_sides r = record r {
  a_in = r.b_in;
  b_in = r.a_in;
  a_change = r.b_change;
  b_change = r.a_change;
  a_fee = r.b_fee;
  b_fee = r.a_fee;
}

-- The outpoints that are spent, in the canonical order, whichever side's coins come first.
canonical_swap :
    (xs ys : List PayjoinInput)
    → map outpoint_of (canonical (xs ++ ys)) ≡ map outpoint_of (canonical (ys ++ xs))
unfolding canonical
canonical_swap xs ys =
    map-sort pair_lt outpoint_of (xs ++ ys)
    ∙ ap (sort pair_lt) (map-append outpoint_of xs ys)
    ∙ sort_swap pair_lt pair_lt-IsLinear (map outpoint_of xs) (map outpoint_of ys)
    ∙ ap (sort pair_lt) (sym (map-append outpoint_of ys xs))
    ∙ sym (map-sort pair_lt outpoint_of (ys ++ xs))

outputs_swap :
    (a b ca cb : List TransactionOutput)
    → sort output_before ((a ++ b) ++ (ca ++ cb)) ≡ sort output_before ((b ++ a) ++ (cb ++ ca))
outputs_swap a b ca cb =
    sort_parts output_before output_before-IsLinear (a ++ b) (b ++ a) (ca ++ cb) (cb ++ ca)
      (sort_swap output_before output_before-IsLinear a b)
      (sort_swap output_before output_before-IsLinear ca cb)

-- A change output is made the same whichever refusal would name its absence.
change_out_as :
    (change : ℕ) (e e' : OutputsError) (spk : Option Text) {outs : List TransactionOutput}
    → change_out change e spk ≡ ok outs
    → change_out change e' spk ≡ ok outs
change_out_as change e e' none h = elim (Bool-cases (change == 0)) [
  | inl z ↦ let g = rw z at h in rw z g
  | inr z ↦ absurd (let g = rw z at h in cc)
]
change_out_as change e e' (some script) h = h

outputs_for_swap :
    (r : Amounts) (a b : MixSpk) (ca cb : Option Text) {outs : List TransactionOutput}
    → outputs_for r a b ca cb ≡ ok outs
    → outputs_for (swap_sides r) b a cb ca ≡ ok outs
unfolding outputs_for
outputs_for_swap r a b ca cb h =
    let pieces = value_or r.pieces 1 in
    let (na, h1) = refuse_if-eq-ok (not (length (mix_scripts a) == pieces)) a_count _ h in
    let (nb, h2) = refuse_if-eq-ok (not (length (mix_scripts b) == pieces)) b_count _ h1 in
    let (xa, oa, h3) = >>=-eq-ok (change_out r.a_change a_script_missing ca) _ h2 in
    let (xb, ob, h4) = >>=-eq-ok (change_out r.b_change b_script_missing cb) _ h3 in
    let share = value_or r.share r.denom in
    let same = outputs_swap (mixed share (mix_scripts b)) (mixed share (mix_scripts a)) xb xa in
    rw
      (
        nb,
        na,
        change_out_as r.b_change b_script_missing a_script_missing cb ob,
        change_out_as r.a_change a_script_missing b_script_missing ca oa,
      )
      (ap ok same ∙ h4)

-- Where the transaction of a round can be assembled, it is the same with the sides the other way
-- round: their coins, their amounts, their mixed scripts and their change scripts.
pub assemble_swap :
    (xs ys : List PayjoinInput) (r : Amounts) (a b : MixSpk) (ca cb : Option Text)
    (tx : Transaction)
    → assemble (xs ++ ys) r a b ca cb ≡ ok tx
    → assemble (ys ++ xs) (swap_sides r) b a cb ca ≡ ok tx
unfolding assemble
assemble_swap xs ys r a b ca cb tx h =
    let (outs, made, h1) = >>=-eq-ok (outputs_for r a b ca cb) _ h in
    rw (outputs_for_swap r a b ca cb made, canonical_swap ys xs) h1
