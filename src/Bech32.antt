-- ===== src/Bech32.antt =====
-- helpers/electrum_client.py: the script that a segwit address stands for.
pub mod Bits
pub mod Spelled
pub mod Program
use Prim.Native.Nat.{bit_xor}
use si_lnt.Prelude.{
  ℕ, zero, suc, ◌+◌, ◌-◌, ◌*◌, ◌/◌, ◌%◌, ◌^◌, Bool, true, false, not, ◌&&◌, ◌||◌, Option, none,
  some, List, [], ◌∷◌, ◌++◌, map, all, any, length, ltb, leb, ◌==◌, if◌then◌else◌,
}
use si_lnt.Prelude.Text.{Text, codes, lower, text_eq, has_char, before_last}

abbrev pub charset : Text
charset = codes "qpzry9x8gf2tvdw0s3jn54khce6mua7l"

-- `chk ^= generator[i] if ((top >> i) & 1) else 0`
abbrev pub feed : List ℕ → ℕ → ℕ → ℕ
feed [] top chk = chk
feed (g ∷ generator) top chk =
    feed generator (top / 2) (if top % 2 == 1 then bit_xor chk g else chk)

abbrev pub generator : List ℕ
generator = 0x3b6a57b2 ∷ 0x26508e6d ∷ 0x1ea119fa ∷ 0x3d4233dd ∷ 0x2a1462b3 ∷ []

unfoldable pub bech32_polymod : ℕ → List ℕ → ℕ
bech32_polymod chk [] = chk
bech32_polymod chk (v ∷ values) =
    bech32_polymod (feed generator (chk / 2 ^ 25) (bit_xor (chk % 2 ^ 25 * 2 ^ 5) v)) values

abbrev pub hrp_expand : Text → List ℕ
hrp_expand hrp = map (λ c. c / 32) hrp ++ 0 ∷ map (λ c. c % 32) hrp

pub data Spec : Type 0 where
  bech32 bech32m : Spec

unfoldable pub verify_checksum : Text → List ℕ → Option Spec
verify_checksum hrp values =
    let const = bech32_polymod 1 (hrp_expand hrp ++ values) in
    if const == 1 then some bech32 else if const == 0x2bc830a3 then some bech32m else none

-- `s.upper()` of printable ASCII.
abbrev pub upper : Text → Text
upper s = map (λ c. if leb b'a' c && leb c b'z' then c - 32 else c) s

-- The characters behind the last `c`.
abbrev pub after_last : ℕ → Text → Text
after_last c [] = []
after_last c (d ∷ s) = let rest = after_last c s in if has_char c s then rest else s

-- `CHARSET.find(c)` of a character that is in it.
abbrev pub find : ℕ → Text → ℕ
find c [] = 0
find c (d ∷ s) = if d == c then 0 else find c s + 1

-- `data[:-6]`
abbrev pub drop_checksum : List ℕ → List ℕ
drop_checksum [] = []
drop_checksum (v ∷ values) =
    let rest = drop_checksum values in if leb 6 (length values) then v ∷ rest else []

unfoldable pub bech32_decode : Text → Option (Text × List ℕ × Spec)
bech32_decode addr =
    let low = lower addr in
    let hrp = before_last b'1' low in
    let part = after_last b'1' low in
    let values = map (λ c. find c charset) part in
    if any (λ c. ltb c 33 || ltb 126 c) addr
    then none
    else if not (text_eq low addr) && not (text_eq (upper addr) addr)
    then none
    else if not (has_char b'1' low)
        || ltb (length hrp) 1
        || ltb (length low) (length hrp + 7)
        || ltb 90 (length low)
    then none
    else if any (λ c. not (has_char c charset)) part
    then none
    else elim (verify_checksum hrp values) [
      | none ↦ none
      | some spec ↦ some (hrp, drop_checksum values, spec)
    ]

-- The inner `while`: groups of `to` bits from the front, and how many bits are left.
unfoldable pub emit : ℕ → ℕ → ℕ → ℕ → List ℕ × ℕ
emit to acc zero bits = ([], bits)
emit to acc (suc fuel) bits =
    let (rest, left) = emit to acc fuel (bits - to) in
    if leb to bits then ((acc / 2 ^ (bits - to)) % 2 ^ to ∷ rest, left) else ([], bits)

-- `_convertbits` without padding, from what the loop has so far.
unfoldable pub convertbits : ℕ → ℕ → ℕ → ℕ → List ℕ → Option (List ℕ)
convertbits from to acc bits [] =
    if leb from bits || not ((acc * 2 ^ (to - bits)) % 2 ^ to == 0) then none else some []
convertbits from to acc bits (value ∷ values) =
    let acc' = (acc * 2 ^ from + value) % 2 ^ (from + to - 1) in
    let (out, left) = emit to acc' (bits + from) (bits + from) in
    let rest = convertbits from to acc' left values in
    if leb (2 ^ from) value
    then none
    else elim rest [ none ↦ none | some groups ↦ some (out ++ groups) ]

-- The script of a witness program, by its version and the checksum that its address had.
unfoldable pub witness_script : ℕ → Spec → List ℕ → Option Text
witness_script zero bech32 prog =
    if length prog == 20
    then some (0x00 ∷ 0x14 ∷ prog)
    else if length prog == 32
    then some (0x00 ∷ 0x20 ∷ prog)
    else none
witness_script zero bech32m prog = none
witness_script (suc zero) bech32m prog =
    if length prog == 32 then some (0x51 ∷ 0x20 ∷ prog) else none
witness_script (suc zero) bech32 prog = none
witness_script (suc (suc v)) spec prog = none

abbrev pub program_of : List ℕ → Spec → Option Text
program_of [] spec = none
program_of (witver ∷ values) spec = elim (convertbits 5 8 0 0 values) [
  | none ↦ none
  | some prog ↦ witness_script witver spec prog
]

abbrev pub is_hrp : Text → Bool
is_hrp hrp = text_eq hrp (codes "bc") || text_eq hrp (codes "tb") || text_eq hrp (codes "bcrt")

-- A ValueError, or the IndexError of an address without data, is none.
unfoldable pub address_to_scriptpubkey : Text → Option Text
address_to_scriptpubkey addr = elim (bech32_decode addr) [
  | none ↦ none
  | some (hrp, values, spec) ↦ if is_hrp hrp then program_of values spec else none
]
