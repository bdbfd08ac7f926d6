-- ===== src/Bech32/Bits.antt =====
-- What regrouping bits keeps: the number that they spell.
use si_lnt.Prelude.{
  ℕ, zero, suc, ◌+◌, ◌-◌, ◌*◌, ◌/◌, ◌%◌, ◌^◌, ◌≤◌, ◌<◌, ◌≡◌, refl, sym, ap, ◌∙◌, arith, Bool, true,
  some, List, [], ◌∷◌, length, ltb, leb, ◌==◌, Bool-cases, Option-cases, inl, inr,
}
use si_lnt.Bech32.{emit, convertbits}

-- The number that digits spell behind those of another one, the highest first.
abbrev pub number : ℕ → ℕ → List ℕ → ℕ
number base n [] = n
number base n (v ∷ values) = number base (n * base + v) values

short_step :
    (b acc v n : ℕ)
    → b < 3
    → v < 32
    → (n * 2 ^ b + acc % 2 ^ b) * 32 + v ≡ n * 2 ^ (b + 5) + ((acc * 32 + v) % 4096) % 2 ^ (b + 5)
short_step zero acc v n h h' = omega (arith, h')
short_step (suc zero) acc v n h h' = omega (arith, h')
short_step (suc (suc zero)) acc v n h h' = omega (arith, h')
short_step (suc (suc (suc b))) acc v n h h' = absurd (omega (arith, h))

long_step :
    (b acc v n : ℕ)
    → b < 5
    → v < 32
    → let next = (acc * 32 + v) % 4096 in
      (n * 2 ^ (b + 3) + acc % 2 ^ (b + 3)) * 32 + v
      ≡ (n * 256 + (next / 2 ^ b) % 256) * 2 ^ b + next % 2 ^ b
long_step zero acc v n h h' = omega (arith, h')
long_step (suc zero) acc v n h h' = omega (arith, h')
long_step (suc (suc zero)) acc v n h h' = omega (arith, h')
long_step (suc (suc (suc zero))) acc v n h h' = omega (arith, h')
long_step (suc (suc (suc (suc zero)))) acc v n h h' = omega (arith, h')
long_step (suc (suc (suc (suc (suc b))))) acc v n h h' = absurd (omega (arith, h))

left_over : (b acc : ℕ) → b < 5 → (acc * 2 ^ (8 - b)) % 256 ≡ 0 → acc % 2 ^ b ≡ 0
left_over zero acc h h' = omega arith
left_over (suc zero) acc h h' = omega (arith, h')
left_over (suc (suc zero)) acc h h' = omega (arith, h')
left_over (suc (suc (suc zero))) acc h h' = omega (arith, h')
left_over (suc (suc (suc (suc zero)))) acc h h' = omega (arith, h')
left_over (suc (suc (suc (suc (suc b))))) acc h h' = absurd (omega (arith, h))

emit-short : (acc fuel b : ℕ) → b < 8 → emit 8 acc fuel b ≡ ([], b)
unfolding emit
emit-short acc zero b h = refl
emit-short acc (suc fuel) b h = ground arith

emit-long :
    (acc fuel c : ℕ) → 1 ≤ fuel → c < 8 → emit 8 acc fuel (c + 8) ≡ ((acc / 2 ^ c) % 256 ∷ [], c)
unfolding emit
emit-long acc zero c some_fuel h = absurd (omega (arith, some_fuel))
emit-long acc (suc fuel) c some_fuel h =
    let back : c + 8 - 8 ≡ c = omega arith in
    let enough : leb 8 (c + 8) ≡ true = ground arith in
    rw (enough, back, emit-short acc fuel c h) refl

some_inj : {A : Type 0} {x y : A} → some x ≡ some y → x ≡ y
some_inj h = cc h

-- The digits of base 32 that are read spell the number of the bytes that are written, and fewer than
-- five bits that are zero.
pub record IsRegrouped (start n bits : ℕ) (values prog : List ℕ) : Type 0 where
  pub pad : ℕ
  pub few : pad < 5
  pub same : number 32 start values ≡ number 256 n prog * 2 ^ pad
  pub sized : bits + 5 * length values ≡ 8 * length prog + pad

pub convertbits-IsRegrouped :
    (acc bits n : ℕ) (values prog : List ℕ)
    → bits < 8
    → convertbits 5 8 acc bits values ≡ some prog
    → IsRegrouped (n * 2 ^ bits + acc % 2 ^ bits) n bits values prog
unfolding convertbits
convertbits-IsRegrouped acc bits n [] prog h done =
    let rest : Bool = (acc * 2 ^ (8 - bits)) % 2 ^ 8 == 0 in
    elim (Bool-cases (leb 5 bits)) [
      | inl e ↦ absurd (let bad = rw e at done in cc bad)
      | inr e ↦
          let done1 = rw e at done in
          elim (Bool-cases rest) [
            | inr e' ↦ absurd (let bad = rw e' at done1 in cc bad)
            | inl e' ↦
                let empty = some_inj (rw e' at done1) in
                let few : bits < 5 = ground (arith, e) in
                let zeros = left_over bits acc few (ground (arith, e')) in
                rw (sym empty) (record {
                  pad = bits;
                  few = few;
                  same = rw zeros (omega arith);
                  sized = omega arith;
                })
          ]
    ]
convertbits-IsRegrouped acc bits n (value ∷ values) prog h done = elim (Bool-cases (leb 32 value)) [
  | inl e ↦ absurd (let bad = rw e at done in cc bad)
  | inr e ↦
      let small : value < 32 = ground (arith, e) in
      let next = (acc * 32 + value) % 4096 in
      let done1 = rw e at done in
      elim (Option-cases (convertbits 5 8 next (emit 8 next (bits + 5) (bits + 5)).1 values)) [
        | inl failed ↦ absurd (let bad = rw failed at done1 in cc bad)
        | inr (groups, made) ↦
            let out = some_inj (rw made at done1) in
            elim (Bool-cases (ltb bits 3)) [
              | inl few ↦
                  let below : bits < 3 = ground (arith, few) in
                  let kept = emit-short next (bits + 5) (bits + 5) (omega (arith, below)) in
                  let rest =
                    convertbits-IsRegrouped next (bits + 5) n values groups (omega (arith, below))
                      (rw kept at made) in
                  let whole = rw kept at out in
                  rw (sym whole) (record {
                    pad = rest.pad;
                    few = rest.few;
                    same =
                        ap (λ k. number 32 k values) (short_step bits acc value n below small)
                        ∙ rest.same;
                    sized = omega (arith, rest.sized);
                  })
              | inr many ↦
                  let c = bits - 3 in
                  let above : 3 ≤ bits = ground (arith, many) in
                  let at : bits ≡ c + 3 = omega (arith, above) in
                  let low : c < 5 = omega (arith, h) in
                  let byte = (next / 2 ^ c) % 256 in
                  let wide : bits + 5 ≡ c + 8 = omega (arith, above) in
                  let kept =
                    ap (emit 8 next (bits + 5)) wide
                    ∙ emit-long next (bits + 5) c (omega arith) (omega (arith, low)) in
                  let rest =
                    convertbits-IsRegrouped next c (n * 256 + byte) values groups
                      (omega (arith, low)) (rw kept at made) in
                  let whole = rw kept at out in
                  rw (sym whole) (record {
                    pad = rest.pad;
                    few = rest.few;
                    same =
                        ap (λ b. number 32 ((n * 2 ^ b + acc % 2 ^ b) * 32 + value) values) at
                        ∙ ap (λ k. number 32 k values) (long_step c acc value n low small)
                        ∙ rest.same;
                    sized = omega (arith, rest.sized, above);
                  })
            ]
      ]
]
