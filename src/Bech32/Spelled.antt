-- ===== src/Bech32/Spelled.antt =====
-- What an address that is decoded has been spelled of.
use si_lnt.Prelude.{
  ℕ, zero, suc, ◌+◌, ◌≤◌, ◌≡◌, refl, sym, ap, ◌∙◌, arith, Bool, true, false, not, ◌&&◌, ◌||◌, some,
  List, [], ◌∷◌, ◌++◌, map, any, length, length-append, ltb, leb, ◌==◌, Bool-cases, Option-cases,
  not-false, ==_iff, ltb→le, ◌⊎◌, inl, inr,
}
use si_lnt.Prelude.Text.{Text, lower, text_eq, text_eq→≡, has_char, before_last}
use si_lnt.Bech32.{
  charset, bech32_polymod, hrp_expand, Spec, bech32, bech32m, verify_checksum, upper, after_last,
  find, drop_checksum, bech32_decode,
}

-- `CHARSET[v]`
abbrev pub symbol_in : Text → ℕ → ℕ
symbol_in [] v = 0
symbol_in (c ∷ s) zero = c
symbol_in (c ∷ s) (suc v) = symbol_in s v

symbol-suc : (d : ℕ) (s : Text) (n : ℕ) → symbol_in (d ∷ s) (n + 1) ≡ symbol_in s n
symbol-suc d s n = let next : n + 1 ≡ suc n = omega arith in ap (symbol_in (d ∷ s)) next

symbol-find : (c : ℕ) (s : Text) → has_char c s ≡ true → symbol_in s (find c s) ≡ c
symbol-find c [] h = absurd (let bad = h in cc bad)
symbol-find c (d ∷ s) h = elim (Bool-cases (d == c)) [
  | inl e ↦ rw e ((==_iff d c).0 e)
  | inr e ↦ rw e (symbol-suc d s (find c s) ∙ symbol-find c s (rw e at h))
]

symbols-find :
    (part : Text)
    → any (λ c. not (has_char c charset)) part ≡ false
    → map (symbol_in charset) (map (λ c. find c charset) part) ≡ part
symbols-find [] h = refl
symbols-find (c ∷ part) h = elim (Bool-cases (has_char c charset)) [
  | inl e ↦
      ap (λ d. d ∷ map (symbol_in charset) (map (λ c. find c charset) part))
        (symbol-find c charset e)
      ∙ ap (λ l. c ∷ l) (symbols-find part (rw e at h))
  | inr e ↦ absurd (let bad = rw e at h in cc bad)
]

split-last : (c : ℕ) (s : Text) → has_char c s ≡ true → s ≡ before_last c s ++ c ∷ after_last c s
split-last c [] h = absurd (let bad = h in cc bad)
split-last c (d ∷ s) h = elim (Bool-cases (has_char c s)) [
  | inl e ↦ elim (Bool-cases (d == c)) [
    | inl e' ↦ rw (e, e') (ap (λ l. d ∷ l) (split-last c s e))
    | inr e' ↦ rw (e, e') (ap (λ l. d ∷ l) (split-last c s e))
  ]
  | inr e ↦ elim (Bool-cases (d == c)) [
    | inl e' ↦ rw (e, e') (ap (λ x. x ∷ s) ((==_iff d c).0 e'))
    | inr e' ↦ absurd (let bad = rw (e', e) at h in cc bad)
  ]
]

split-checksum :
    (values : List ℕ)
    → 6 ≤ length values
    → (check : List ℕ) × (values ≡ drop_checksum values ++ check) × (length check ≡ 6)
split-checksum [] h = absurd (omega (arith, h))
split-checksum (v ∷ values) h = elim (Bool-cases (leb 6 (length values))) [
  | inl e ↦
      let (check, same, six) = split-checksum values (ground (arith, e)) in
      (check, rw e (ap (λ l. v ∷ l) same), six)
  | inr e ↦ (v ∷ values, rw e refl, ground (arith, e, h))
]

-- The constant of each of the two checksums.
abbrev pub constant : Spec → ℕ
constant bech32 = 1
constant bech32m = 0x2bc830a3

verified :
    (hrp : Text) (values : List ℕ) (spec : Spec)
    → verify_checksum hrp values ≡ some spec
    → bech32_polymod 1 (hrp_expand hrp ++ values) ≡ constant spec
unfolding verify_checksum
verified hrp values spec h =
    let sum = bech32_polymod 1 (hrp_expand hrp ++ values) in
    elim (Bool-cases (sum == 1)) [
      | inl e ↦
          let same : bech32 ≡ spec = (let both = rw e at h in cc both) in
          (==_iff sum 1).0 e ∙ ap constant same
      | inr e ↦
          let h1 = rw e at h in
          elim (Bool-cases (sum == 0x2bc830a3)) [
            | inl e' ↦
                let same : bech32m ≡ spec = (let both = rw e' at h1 in cc both) in
                (==_iff sum 0x2bc830a3).0 e' ∙ ap constant same
            | inr e' ↦ absurd (let bad = rw e' at h1 in cc bad)
          ]
    ]

-- The human-readable part, the separator and a character for each value, in lower case or in upper
-- case, the last six of which make the checksum right.
pub record IsSpelled (addr hrp : Text) (data_values : List ℕ) (spec : Spec) : Type 0 where
  pub check : List ℕ
  pub six : length check ≡ 6
  pub spelled : lower addr ≡ hrp ++ b'1' ∷ map (symbol_in charset) (data_values ++ check)
  pub one_case : (lower addr ≡ addr) ⊎ (upper addr ≡ addr)
  pub correct : bech32_polymod 1 (hrp_expand hrp ++ (data_values ++ check)) ≡ constant spec

cases_of : (p q : Bool) → (not p && not q) ≡ false → (p ≡ true) ⊎ (q ≡ true)
cases_of true q h = inl refl
cases_of false true h = inr refl
cases_of false false h = cc h

as_one_case :
    (addr : Text)
    → (not (text_eq (lower addr) addr) && not (text_eq (upper addr) addr)) ≡ false
    → (lower addr ≡ addr) ⊎ (upper addr ≡ addr)
as_one_case addr h = elim (cases_of _ _ h) [
  | inl e ↦ inl (text_eq→≡ (lower addr) addr e)
  | inr e ↦ inr (text_eq→≡ (upper addr) addr e)
]

neither : (p q : Bool) → (p || q) ≡ false → (p ≡ false) × (q ≡ false)
neither true q h = cc h
neither false q h = (refl, h)

length-map : (f : ℕ → ℕ) (values : List ℕ) → length (map f values) ≡ length values
length-map f [] = refl
length-map f (v ∷ values) = omega (arith, length-map f values)

-- From what the tests have found.
tested-IsSpelled :
    (addr front part hrp : Text) (data_values : List ℕ) (spec : Spec)
    → let values = map (λ c. find c charset) part in
      lower addr ≡ front ++ b'1' ∷ part
      → length front + 7 ≤ length (lower addr)
      → (not (text_eq (lower addr) addr) && not (text_eq (upper addr) addr)) ≡ false
      → any (λ c. not (has_char c charset)) part ≡ false
      → bech32_polymod 1 (hrp_expand front ++ values) ≡ constant spec
      → front ≡ hrp
      → drop_checksum values ≡ data_values
      → IsSpelled addr hrp data_values spec
tested-IsSpelled addr front part hrp data_values spec whole long one known sum same_hrp
      same_values =
    let values = map (λ c. find c charset) part in
    let lengths : length (lower addr) ≡ length front + (length part + 1) =
      ap length whole ∙ length-append front (b'1' ∷ part) ∙ omega arith in
    let enough : 6 ≤ length values =
      omega (arith, length-map (λ c. find c charset) part, lengths, long) in
    let (check, split, six) = split-checksum values enough in
    let all_values : values ≡ data_values ++ check = split ∙ ap (λ l. l ++ check) same_values in
    record {
      check = check;
      six = six;
      spelled =
          whole
          ∙ ap (λ l. front ++ b'1' ∷ l) (sym (symbols-find part known))
          ∙ ap (λ l. front ++ b'1' ∷ map (symbol_in charset) l) all_values
          ∙ ap (λ l. l ++ b'1' ∷ map (symbol_in charset) (data_values ++ check)) same_hrp;
      one_case = as_one_case addr one;
      correct =
          sym (
            ap (λ l. bech32_polymod 1 (hrp_expand front ++ l)) all_values
            ∙ ap (λ l. bech32_polymod 1 (hrp_expand l ++ (data_values ++ check))) same_hrp)
          ∙ sum;
    }

pub bech32_decode-IsSpelled :
    (addr hrp : Text) (data_values : List ℕ) (spec : Spec)
    → bech32_decode addr ≡ some (hrp, data_values, spec)
    → IsSpelled addr hrp data_values spec
unfolding bech32_decode
bech32_decode-IsSpelled addr hrp data_values spec h =
    let low = lower addr in
    let front = before_last b'1' low in
    let part = after_last b'1' low in
    let values = map (λ c. find c charset) part in
    elim (Bool-cases (any (λ c. ltb c 33 || ltb 126 c) addr)) [
      | inl e ↦ absurd (let bad = rw e at h in cc bad)
      | inr e ↦
          let h1 = rw e at h in
          elim (Bool-cases (not (text_eq low addr) && not (text_eq (upper addr) addr))) [
            | inl mixed ↦ absurd (let bad = rw mixed at h1 in cc bad)
            | inr one ↦
                let h2 = rw one at h1 in
                let shape =
                  not (has_char b'1' low)
                  || ltb (length front) 1
                  || ltb (length low) (length front + 7)
                  || ltb 90 (length low) in
                elim (Bool-cases shape) [
                  | inl bad_shape ↦ absurd (let bad = rw bad_shape at h2 in cc bad)
                  | inr good ↦
                      let h3 = rw good at h2 in
                      let (sized, _) = neither _ (ltb 90 (length low)) good in
                      let (parted, long) = neither _ (ltb (length low) (length front + 7)) sized in
                      let (separated, _) = neither _ (ltb (length front) 1) parted in
                      let has = not-false (has_char b'1' low) separated in
                      let whole = split-last b'1' low has in
                      elim (Bool-cases (any (λ c. not (has_char c charset)) part)) [
                        | inl strange ↦ absurd (let bad = rw strange at h3 in cc bad)
                        | inr known ↦
                            let h4 = rw known at h3 in
                            elim (Option-cases (verify_checksum front values)) [
                              | inl failed ↦ absurd (let bad = rw failed at h4 in cc bad)
                              | inr (found_spec, checked) ↦
                                  let both = rw checked at h4 in
                                  let same_spec : found_spec ≡ spec = cc both in
                                  tested-IsSpelled addr front part hrp data_values spec whole
                                    (ltb→le (length low) (length front + 7) long) one known
                                    (verified front values found_spec checked
                                      ∙ ap constant same_spec)
                                    (cc both) (cc both)
                            ]
                      ]
                ]
          ]
    ]
