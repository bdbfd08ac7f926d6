-- ===== src/Payjoin/Witnesses.antt =====
-- helpers/payjoin_sp.py: the signatures that a party supplies (`verify_witnesses`), and whether
-- all are there (`finalize`).
pub mod Checked
use si_lnt.Prelude.{
  ℕ, zero, suc, ◌+◌, ◌-◌, ◌*◌, Bool, true, false, not, ◌&&◌, ◌||◌, Option, none, some, List, [],
  ◌∷◌, any, all, keep, is_empty, length, leb, ◌==◌, if◌then◌else◌, Result, ok, err, ◌>>=◌, ◌>>◌,
  refuse_if,
}
use si_lnt.Prelude.Int.{ℤ, pos, negsuc}
use si_lnt.Prelude.Text.{Text, strip}
use si_lnt.Payjoin.Inputs.{PayjoinInput}
use si_lnt.Tango.Outputs.{canonical}

-- Decimal digits, which may have a single underscore between them.
unfoldable pub digits : ℕ → Bool → Text → Option ℕ
digits acc after_digit [] = if after_digit then some acc else none
digits acc after_digit (c ∷ s) =
    let on = digits (acc * 10 + (c - b'0')) true s in
    let gap = digits acc false s in
    if leb b'0' c && leb c b'9' then on else if c == b'_' && after_digit then gap else none

abbrev pub negated : Option ℕ → Option ℤ
negated none = none
negated (some zero) = some (pos zero)
negated (some (suc n)) = some (negsuc n)

abbrev pub positive : Option ℕ → Option ℤ
positive none = none
positive (some n) = some (pos n)

abbrev pub signed_digits : Text → Option ℤ
signed_digits [] = none
signed_digits (c ∷ s) =
    if c == b'-'
    then negated (digits 0 false s)
    else if c == b'+'
    then positive (digits 0 false s)
    else positive (digits 0 false (c ∷ s))

-- `int(s)` of ASCII text.
abbrev pub parse_int : Text → Option ℤ
parse_int s = signed_digits (strip s)

abbrev pub hex_value : ℕ → Option ℕ
hex_value c =
    if leb b'0' c && leb c b'9'
    then some (c - b'0')
    else if leb b'a' c && leb c b'f'
    then some (c - b'a' + 10)
    else if leb b'A' c && leb c b'F'
    then some (c - b'A' + 10)
    else none

abbrev pub byte_of : Option ℕ → Option ℕ → Option (List ℕ) → Option (List ℕ)
byte_of (some h) (some l) (some rest) = some ((h * 16 + l) ∷ rest)
byte_of _ _ _ = none

abbrev pub is_blank : ℕ → Bool
is_blank c = (leb 9 c && leb c 13) || c == 32

-- `bytes.fromhex(s)`: pairs of digits, with blanks of ASCII between them.
unfoldable pub from_hex : Text → Option (List ℕ)
from_hex [] = some []
from_hex (c ∷ []) = if is_blank c then some [] else none
from_hex (c ∷ d ∷ s) =
    let pair = byte_of (hex_value c) (hex_value d) (from_hex s) in
    let skip = from_hex (d ∷ s) in if is_blank c then skip else pair

pub data WitnessError : Type 0 where
  not_an_index not_yours not_hex bad_length no_such_input bad_signature missing : WitnessError

-- Signatures by the position of their input, as a dict.
abbrev pub Witnesses : Type 0
Witnesses = List (ℕ × List ℕ)

abbrev pub put : ℕ → List ℕ → Witnesses → Witnesses
put n sig [] = (n, sig) ∷ []
put n sig ((m, old) ∷ out) =
    let rest = put n sig out in if m == n then (m, sig) ∷ out else (m, old) ∷ rest

abbrev pub has_index : ℕ → Witnesses → Bool
has_index n out = any (λ w. w.0 == n) out

abbrev pub has : ℕ → List ℕ → Bool
has n ns = any (λ m. m == n) ns

abbrev pub input_at : ℕ → List PayjoinInput → Option PayjoinInput
input_at n [] = none
input_at zero (i ∷ rest) = some i
input_at (suc n) (i ∷ rest) = input_at n rest

abbrev pub or_raise : {A : Type 0} → WitnessError → Option A → Result WitnessError A
or_raise e none = err e
or_raise e (some a) = ok a

abbrev pub own_index : List ℕ → ℤ → Result WitnessError ℕ
own_index allowed (negsuc n) = err not_yours
own_index allowed (pos n) = if has n allowed then ok n else err not_yours

-- `verifies` is the Schnorr check of a key, a signature and the digest of an input.
module _ (verifies : List ℕ → List ℕ → ℕ → Bool) (ordered : List PayjoinInput)
    (allowed : List ℕ) where
  unfoldable pub verify_each : List (Text × Text) → Witnesses → Result WitnessError Witnesses
  verify_each [] out = ok out
  verify_each ((key, value) ∷ witnesses) out = do
    index ← or_raise not_an_index (parse_int key)
    n ← own_index allowed index
    sig ← or_raise not_hex (from_hex value)
    refuse_if (not (length sig == 64)) bad_length
    input ← or_raise no_such_input (input_at n ordered)
    refuse_if (not (verifies input.pub_key sig n)) bad_signature
    verify_each witnesses (put n sig out)

-- The dict of what was supplied, if it is all that the party is to sign.
unfoldable pub verify_witnesses :
    (List ℕ → List ℕ → ℕ → Bool)
    → List PayjoinInput
    → List (Text × Text)
    → List ℕ
    → Result WitnessError Witnesses
verify_witnesses verifies inputs witnesses allowed = do
  out ← verify_each verifies (canonical inputs) allowed witnesses []
  refuse_if (any (λ n. not (has_index n out)) allowed) missing
  ok out

-- Whether `finalize` finds a signature for each of the transaction's inputs.
abbrev pub all_signed : ℕ → Witnesses → Bool
all_signed zero out = true
all_signed (suc n) out = has_index n out && all_signed n out
