-- ===== src/Payjoin/Witnesses/Checked.antt =====
-- What a party's signatures are when they have passed.
use si_lnt.Prelude.{
  ℕ, ◌≡◌, refl, sym, arith, Bool, true, false, not, ◌&&◌, Option, none, some, List, [], ◌∷◌, any,
  all, length, ◌==◌, not-false, and_true, and-true, Bool-cases, inl, inr, ok, ok_inj,
  refuse_if-eq-ok, >>=-eq-ok,
}
use si_lnt.Prelude.Int.{ℤ, pos, negsuc}
use si_lnt.Prelude.Text.{Text}
use si_lnt.Payjoin.Inputs.{PayjoinInput}
use si_lnt.Tango.Outputs.{canonical}
use si_lnt.Payjoin.Witnesses.{
  parse_int, from_hex, WitnessError, not_an_index, not_hex, bad_length, no_such_input,
  bad_signature, missing, Witnesses, put, has_index, has, input_at, or_raise, own_index,
  verify_each, verify_witnesses,
}

abbrev pub signed_by : (List ℕ → List ℕ → ℕ → Bool) → List ℕ → ℕ → Option PayjoinInput → Bool
signed_by verifies sig n none = false
signed_by verifies sig n (some i) = verifies i.pub_key sig n

-- The signature of an input of 64 bytes that verifies under the input's key.
abbrev pub signs : (List ℕ → List ℕ → ℕ → Bool) → List PayjoinInput → ℕ × List ℕ → Bool
signs verifies ordered (n, sig) = length sig == 64 && signed_by verifies sig n (input_at n ordered)

module _ (verifies : List ℕ → List ℕ → ℕ → Bool) (ordered : List PayjoinInput)
    (allowed : List ℕ) where
  abbrev is_good : ℕ × List ℕ → Bool
  is_good w = has w.0 allowed && signs verifies ordered w

  put-all :
      (n : ℕ) (sig : List ℕ) (out : Witnesses)
      → is_good (n, sig) ≡ true
      → all is_good out ≡ true
      → all is_good (put n sig out) ≡ true
  put-all n sig [] good h = rw good refl
  put-all n sig ((m, old) ∷ out) good h =
      let (first, rest) = and-true (is_good (m, old)) (all is_good out) h in
      elim (Bool-cases (m == n)) [
        | inl e ↦
            let same : m ≡ n = ground (arith, e) in
            rw e (rw same (and_true (is_good (n, sig)) (all is_good out) good rest))
        | inr e ↦ rw e (and_true (is_good (m, old)) _ first (put-all n sig out good rest))
      ]

  own_index-has : (z : ℤ) {n : ℕ} → own_index allowed z ≡ ok n → has n allowed ≡ true
  own_index-has (pos m) h = elim (Bool-cases (has m allowed)) [
    | inl e ↦ let done = rw e at h in rw (sym (ok_inj done)) e
    | inr e ↦ absurd (let bad = rw e at h in cc)
  ]
  own_index-has (negsuc m) h = cc

  or_raise-eq-ok :
      {A : Type 0} (e : WitnessError) (o : Option A) {a : A} → or_raise e o ≡ ok a → o ≡ some a
  or_raise-eq-ok e none h = cc
  or_raise-eq-ok e (some a) h = let same : a ≡ _ = ok_inj h in cc same

  verify_each-all :
      (witnesses : List (Text × Text)) (out : Witnesses) {out' : Witnesses}
      → verify_each verifies ordered allowed witnesses out ≡ ok out'
      → all is_good out ≡ true
      → all is_good out' ≡ true
  unfolding verify_each
  verify_each-all [] out h good = rw (sym (ok_inj h)) good
  verify_each-all ((key, value) ∷ witnesses) out h good =
      let (index, _, h1) = >>=-eq-ok (or_raise not_an_index (parse_int key)) _ h in
      let (n, own, h2) = >>=-eq-ok (own_index allowed index) _ h1 in
      let (sig, _, h3) = >>=-eq-ok (or_raise not_hex (from_hex value)) _ h2 in
      let (long, h4) = refuse_if-eq-ok (not (length sig == 64)) bad_length _ h3 in
      let (i, found, h5) = >>=-eq-ok (or_raise no_such_input (input_at n ordered)) _ h4 in
      let (valid, h6) = refuse_if-eq-ok (not (verifies i.pub_key sig n)) bad_signature _ h5 in
      let at = or_raise-eq-ok no_such_input (input_at n ordered) found in
      let passed : is_good (n, sig) ≡ true =
        rw (own_index-has index own, not-false _ long, at, not-false _ valid) refl in
      verify_each-all witnesses (put n sig out) h6 (put-all n sig out passed good)

  only_own :
      (n : ℕ) (out : Witnesses)
      → all is_good out ≡ true
      → has_index n out ≡ true
      → has n allowed ≡ true
  only_own n [] h there = cc
  only_own n ((m, sig) ∷ out) h there =
      let (first, rest) = and-true (is_good (m, sig)) (all is_good out) h in
      let (own, _) = and-true (has m allowed) _ first in
      elim (Bool-cases (m == n)) [
        | inl e ↦ let same : m ≡ n = ground (arith, e) in rw same at own
        | inr e ↦ only_own n out rest (rw e at there)
      ]

  all-signs : (out : Witnesses) → all is_good out ≡ true → all (signs verifies ordered) out ≡ true
  all-signs [] h = refl
  all-signs ((m, sig) ∷ out) h =
      let (first, rest) = and-true (is_good (m, sig)) (all is_good out) h in
      let (_, signed) = and-true (has m allowed) _ first in
      and_true (signs verifies ordered (m, sig)) _ signed (all-signs out rest)

none_missing :
    (n : ℕ) (out : Witnesses) (allowed : List ℕ)
    → any (λ m. not (has_index m out)) allowed ≡ false
    → has n allowed ≡ true
    → has_index n out ≡ true
none_missing n out [] h own = cc
none_missing n out (m ∷ allowed) h own = elim (Bool-cases (has_index m out)) [
  | inl there ↦ elim (Bool-cases (m == n)) [
    | inl e ↦ let same : m ≡ n = ground (arith, e) in rw same at there
    | inr e ↦ none_missing n out allowed (rw there at h) (rw e at own)
  ]
  | inr gone ↦ absurd (let bad = rw gone at h in cc)
]

same_truth : (p q : Bool) → (p ≡ true → q ≡ true) → (q ≡ true → p ≡ true) → p ≡ q
same_truth true q f g = sym (f refl)
same_truth false true f g = g refl
same_truth false false f g = refl

-- Signatures that pass are of exactly the inputs that the party is to sign, each of 64 bytes and
-- valid for the key of its input in the canonical order.
pub verify_witnesses_lem :
    (verifies : List ℕ → List ℕ → ℕ → Bool) (inputs : List PayjoinInput)
    (witnesses : List (Text × Text)) (allowed : List ℕ) (n : ℕ) (out : Witnesses)
    → verify_witnesses verifies inputs witnesses allowed ≡ ok out
    → (all (signs verifies (canonical inputs)) out ≡ true) × (has_index n out ≡ has n allowed)
unfolding verify_witnesses
verify_witnesses_lem verifies inputs witnesses allowed n out h =
    let ordered = canonical inputs in
    let (found, each, h1) = >>=-eq-ok (verify_each verifies ordered allowed witnesses []) _ h in
    let (complete, h2) =
      refuse_if-eq-ok (any (λ m. not (has_index m found)) allowed) missing _ h1 in
    let good = verify_each-all verifies ordered allowed witnesses [] each refl in
    rw (sym (ok_inj h2)) (
      all-signs verifies ordered allowed found good,
      same_truth (has_index n found) (has n allowed)
          (only_own verifies ordered allowed n found good) (none_missing n found allowed complete),
    )
