-- ===== src/Bech32/Program.antt =====
-- What an address decodes to is a witness program.
use si_lnt.Prelude.{
  ℕ, zero, suc, ◌+◌, ◌-◌, ◌*◌, ◌/◌, ◌%◌, ◌^◌, ◌≡◌, refl, sym, arith, Bool, true, not, ◌||◌, some,
  List, [], ◌∷◌, ◌++◌, all, length, ltb, leb, ◌==◌, Bool-cases, Option-cases, inl, inr, ◌⊎◌, ==_iff,
  ap, ◌∙◌, if◌then◌else◌,
}
use si_lnt.Prelude.Text.{Text, codes, text_eq, text_eq→≡}
use si_lnt.Bech32.Bits.{IsRegrouped, convertbits-IsRegrouped}
use si_lnt.Bech32.Spelled.{IsSpelled, bech32_decode-IsSpelled}
use si_lnt.Bech32.{
  Spec, bech32, bech32m, bech32_decode, emit, convertbits, witness_script, program_of, is_hrp,
  address_to_scriptpubkey,
}

abbrev pub are_bytes : Text → Bool
are_bytes s = all (λ c. ltb c 256) s

-- Version 0 with the checksum of bech32 and 20 or 32 bytes, or version 1 with that of bech32m and 32.
abbrev pub IsKind : ℕ → Spec → Text → Type 0
IsKind version spec prog =
    ((version ≡ 0) × (spec ≡ bech32) × ((length prog ≡ 20) ⊎ (length prog ≡ 32)))
    ⊎ ((version ≡ 1) × (spec ≡ bech32m) × (length prog ≡ 32))

-- OP_0 or OP_1, a push of the program's length, and the program.
abbrev pub script_of : ℕ → Text → Text
script_of version prog = (if version == 0 then 0 else 0x51) ∷ length prog ∷ prog

append-are_bytes :
    (s t : Text) → are_bytes s ≡ true → are_bytes t ≡ true → are_bytes (s ++ t) ≡ true
append-are_bytes [] t h h' = h'
append-are_bytes (c ∷ s) t h h' = ground (arith, append-are_bytes s t, h, h')

is_byte : (n : ℕ) → ltb (n % 256) 256 ≡ true
is_byte n = ground arith

some_inj : {A : Type 0} {x y : A} → some x ≡ some y → x ≡ y
some_inj h = cc h

emit-are_bytes : (acc fuel bits : ℕ) → are_bytes (emit 8 acc fuel bits).0 ≡ true
unfolding emit
emit-are_bytes acc zero bits = refl
emit-are_bytes acc (suc fuel) bits = elim (Bool-cases (leb 8 bits)) [
  | inl e ↦
      let rest = emit-are_bytes acc fuel (bits - 8) in rw (e, is_byte (acc / 2 ^ (bits - 8))) rest
  | inr e ↦ rw e refl
]

convertbits-are_bytes :
    (acc bits : ℕ) (values : List ℕ) (prog : Text)
    → convertbits 5 8 acc bits values ≡ some prog
    → are_bytes prog ≡ true
unfolding convertbits
convertbits-are_bytes acc bits [] prog h =
    elim (Bool-cases (leb 5 bits || not ((acc * 2 ^ (8 - bits)) % 2 ^ 8 == 0))) [
      | inl e ↦ absurd (let bad = rw e at h in cc)
      | inr e ↦ let done = rw e at h in rw (sym (some_inj done)) refl
    ]
convertbits-are_bytes acc bits (value ∷ values) prog h =
    let acc' = (acc * 2 ^ 5 + value) % 2 ^ 12 in
    let out = emit 8 acc' (bits + 5) (bits + 5) in
    elim (Bool-cases (leb 32 value)) [
      | inl e ↦ absurd (let bad = rw e at h in cc)
      | inr e ↦
          let h1 = rw e at h in
          elim (Option-cases (convertbits 5 8 acc' out.1 values)) [
            | inl failed ↦ absurd (let bad = rw failed at h1 in cc)
            | inr (groups, made) ↦
                let done = rw made at h1 in
                rw (sym (some_inj done)) (
                  append-are_bytes out.0 groups (emit-are_bytes acc' (bits + 5) (bits + 5))
                    (convertbits-are_bytes acc' out.1 values groups made))
          ]
    ]

witness_script-IsKind :
    (v : ℕ) (spec : Spec) (prog s : Text)
    → witness_script v spec prog ≡ some s
    → IsKind v spec prog × (s ≡ script_of v prog)
unfolding witness_script
witness_script-IsKind zero bech32 prog s h = elim (Bool-cases (length prog == 20)) [
  | inl e ↦
      let size = (==_iff (length prog) 20).0 e in
      (inl (refl, refl, inl size), some_inj (sym (rw e at h)) ∙ ap (λ n. 0 ∷ n ∷ prog) (sym size))
  | inr e ↦ elim (Bool-cases (length prog == 32)) [
    | inl e' ↦
        let size = (==_iff (length prog) 32).0 e' in
        (
          inl (refl, refl, inr size),
          some_inj (sym (rw (e, e') at h)) ∙ ap (λ n. 0 ∷ n ∷ prog) (sym size),
        )
    | inr e' ↦ absurd (let bad = rw (e, e') at h in cc bad)
  ]
]
witness_script-IsKind zero bech32m prog s h = cc h
witness_script-IsKind (suc zero) bech32m prog s h = elim (Bool-cases (length prog == 32)) [
  | inl e ↦
      let size = (==_iff (length prog) 32).0 e in
      (inr (refl, refl, size), some_inj (sym (rw e at h)) ∙ ap (λ n. 0x51 ∷ n ∷ prog) (sym size))
  | inr e ↦ absurd (let bad = rw e at h in cc bad)
]
witness_script-IsKind (suc zero) bech32 prog s h = cc h
witness_script-IsKind (suc (suc v)) spec prog s h = cc h

abbrev pub IsNetwork : Text → Type 0
IsNetwork hrp = (hrp ≡ codes "bc") ⊎ (hrp ≡ codes "tb") ⊎ (hrp ≡ codes "bcrt")

-- What an address is made of: one of the three human-readable parts, a version, and the bytes of a
-- program regrouped by fives, spelled with their checksum.
pub record IsAddressOf (addr s : Text) : Type 0 where
  hrp : Text
  version : ℕ
  values : List ℕ
  spec : Spec
  prog : Text
  network : IsNetwork hrp
  letters : IsSpelled addr hrp (version ∷ values) spec
  regrouped : IsRegrouped 0 0 0 values prog
  bytes : are_bytes prog ≡ true
  kind : IsKind version spec prog
  script : s ≡ script_of version prog

hrp-IsNetwork : (hrp : Text) → is_hrp hrp ≡ true → IsNetwork hrp
hrp-IsNetwork hrp h = elim (Bool-cases (text_eq hrp (codes "bc"))) [
  | inl e ↦ inl (text_eq→≡ hrp _ e)
  | inr e ↦ elim (Bool-cases (text_eq hrp (codes "tb"))) [
    | inl e' ↦ inr (inl (text_eq→≡ hrp _ e'))
    | inr e' ↦ inr (inr (text_eq→≡ hrp _ (rw (e, e') at h)))
  ]
]

program_of-IsAddressOf :
    (addr hrp : Text) (data_values : List ℕ) (spec : Spec) (s : Text)
    → IsNetwork hrp
    → IsSpelled addr hrp data_values spec
    → program_of data_values spec ≡ some s
    → IsAddressOf addr s
program_of-IsAddressOf addr hrp [] spec s network letters h = cc h
program_of-IsAddressOf addr hrp (version ∷ values) spec s network letters h =
    elim (Option-cases (convertbits 5 8 0 0 values)) [
      | inl failed ↦ absurd (let bad = rw (failed, program_of) at h in cc bad)
      | inr (prog, made) ↦
          let done = rw (made, program_of) at h in
          let (kind, script) = witness_script-IsKind version spec prog s done in
          record {
            hrp = hrp;
            version = version;
            values = values;
            spec = spec;
            prog = prog;
            network = network;
            letters = letters;
            regrouped = convertbits-IsRegrouped 0 0 0 values prog (omega arith) made;
            bytes = convertbits-are_bytes 0 0 values prog made;
            kind = kind;
            script = script;
          }
    ]

-- Whatever script an address stands for is that of the program that the address spells: the address
-- is a human-readable part of the three, the separator, and a character of the charset for the
-- version, for each value and for each of the six of a checksum that is right for the version, all in
-- one letter case; the values spell the same number as the program's bytes and fewer than five zero
-- bits; version 0 has 20 or 32 bytes and version 1 has 32; and the script is the version's opcode,
-- the length and the program.
pub address_to_scriptpubkey_lem :
    (addr s : Text) → address_to_scriptpubkey addr ≡ some s → IsAddressOf addr s
unfolding address_to_scriptpubkey
address_to_scriptpubkey_lem addr s h = elim (Option-cases (bech32_decode addr)) [
  | inl failed ↦ absurd (let bad = rw (failed, address_to_scriptpubkey) at h in cc bad)
  | inr ((hrp, values, spec), made) ↦ elim (Bool-cases (is_hrp hrp)) [
    | inl e ↦
        let done = rw (made, e, address_to_scriptpubkey) at h in
        program_of-IsAddressOf addr hrp values spec s (hrp-IsNetwork hrp e)
          (bech32_decode-IsSpelled addr hrp values spec made) done
    | inr e ↦ absurd (let bad = rw (made, e, address_to_scriptpubkey) at h in cc bad)
  ]
]
