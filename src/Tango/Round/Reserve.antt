-- ===== src/Tango/Round/Reserve.antt =====
-- Which coins live rounds hold: `outpoint_key` and `clashing_outpoints` of helpers/tango.py, and
-- `get_reserved_tango_outpoints` of crud.py. A key is the pair that its text spells.
use si_lnt.Prelude.{
  ℕ, ◌≡◌, refl, arith, Bool, true, false, ◌&&◌, ◌||◌, Option, none, some, List, [], ◌∷◌, ◌++◌, map,
  any, keep, sum_of, ◌==◌, if◌then◌else◌, Bool-cases, inl, inr,
}
use si_lnt.Prelude.Text.{Text, text_eq, text_eq→≡, strip, lower}
use si_lnt.Floats.{Floats}
use si_lnt.Prelude.Int.{ℤ}
use si_lnt.Payjoin.Inputs.{PayjoinInput}
use si_lnt.Tango.Plan.{Amounts}
use si_lnt.Tango.Turns.{Status, cancelled}

-- The columns of a round that decide what it holds and what it pays; the scripts, the
-- witnesses and the routed changes are left out.
pub record Round (fl : Floats) : Type 0 where
  pub id : Text
  pub status : Status
  pub network : Text
  pub a_user_id : Text
  pub b_user_id : Option Text
  pub denom_sats : ℕ
  pub fee_rate : fl.Rate
  pub pieces : ℤ
  pub a_inputs : List PayjoinInput
  pub b_inputs : List PayjoinInput
  pub a_payout : Bool
  pub amounts : Option Amounts
  pub expires_at : Option ℕ
  pub reject_reason : Option Text

unfoldable pub outpoint_key : PayjoinInput → Text × ℕ
outpoint_key i = (lower (strip i.txid), i.vout)

abbrev pub key_eq : Text × ℕ → Text × ℕ → Bool
key_eq k l = text_eq k.0 l.0 && k.1 == l.1

-- `key in held`
abbrev pub has_key : Text × ℕ → List (Text × ℕ) → Bool
has_key k held = any (λ l. key_eq l k) held

abbrev pub keys_of : List PayjoinInput → List (Text × ℕ)
keys_of rows = map outpoint_key rows

-- The coins of `rows` that are held.
unfoldable pub clashing_outpoints : List PayjoinInput → List (Text × ℕ) → List PayjoinInput
clashing_outpoints rows held = keep (λ i. has_key (outpoint_key i) held) rows

-- TANGO_LIVE
abbrev pub is_live : Status → Bool
is_live cancelled = false
is_live _ = true

abbrev pub is_user : Option Text → Text → Bool
is_user none u = false
is_user (some v) u = text_eq v u

pub has_key-append :
    (k : Text × ℕ) (xs ys : List (Text × ℕ)) → has_key k (xs ++ ys) ≡ (has_key k xs || has_key k ys)
has_key-append k [] ys = refl
has_key-append k (x ∷ xs) ys = ground (arith, has_key-append k xs ys)

module _ {fl : Floats} where
  -- One row of the query: the coins of the side, or of the sides, that the user is.
  unfoldable pub held_by : Text → Round fl → List (Text × ℕ)
  held_by user r =
      if is_live r.status
      then ((if text_eq r.a_user_id user then keys_of r.a_inputs else [])
          ++ (if is_user r.b_user_id user then keys_of r.b_inputs else []))
      else []

  unfoldable pub get_reserved_tango_outpoints : Text → List (Round fl) → List (Text × ℕ)
  get_reserved_tango_outpoints user [] = []
  get_reserved_tango_outpoints user (r ∷ rest) =
      held_by user r ++ get_reserved_tango_outpoints user rest

  -- Whether a round holds a coin of a user, as a number, and how many rounds of a list do.
  abbrev pub holds : Text → Text × ℕ → Round fl → ℕ
  holds user k r = if has_key k (held_by user r) then 1 else 0

  abbrev pub holders : Text → Text × ℕ → List (Round fl) → ℕ
  holders user k rounds = sum_of (holds user k) rounds

  -- A coin that is not among the reserved ones is held by no round.
  pub unreserved :
      (user : Text) (k : Text × ℕ) (rounds : List (Round fl))
      → has_key k (get_reserved_tango_outpoints user rounds) ≡ false
      → holders user k rounds ≡ 0
  unfolding get_reserved_tango_outpoints
  unreserved user k [] h = refl
  unreserved user k (r ∷ rest) h =
      let e =
        rw (has_key-append k (held_by user r) (get_reserved_tango_outpoints user rest)) at h in
      ground (arith, unreserved user k rest)

  pub reserved :
      (user : Text) (k : Text × ℕ) (rounds : List (Round fl))
      → holders user k rounds ≡ 0
      → has_key k (get_reserved_tango_outpoints user rounds) ≡ false
  unfolding get_reserved_tango_outpoints
  reserved user k [] h = refl
  reserved user k (r ∷ rest) h =
      rw (has_key-append k (held_by user r) (get_reserved_tango_outpoints user rest))
        (ground (arith, reserved user k rest))

pub key_eq→≡ : (k l : Text × ℕ) → key_eq k l ≡ true → k ≡ l
key_eq→≡ (t, n) (u, m) h = elim (Bool-cases (text_eq t u)) [
  | inl e ↦ let same = text_eq→≡ t u e in let at : n ≡ m = ground (arith, h, e) in cc (same, at)
  | inr e ↦ absurd (ground (arith, h, e))
]

-- Where no coin clashes, none of the coins is held.
pub no_clash :
    (k : Text × ℕ) (rows : List PayjoinInput) (held : List (Text × ℕ))
    → clashing_outpoints rows held ≡ []
    → has_key k (keys_of rows) ≡ true
    → has_key k held ≡ false
unfolding clashing_outpoints
no_clash k [] held h m = absurd (let bad : false ≡ true = m in cc)
no_clash k (i ∷ rows) held h m = elim (Bool-cases (has_key (outpoint_key i) held)) [
  | inl e ↦ absurd (let bad = rw (e, clashing_outpoints) at h in cc)
  | inr e ↦
      let rest = rw (e, clashing_outpoints) at h in
      elim (Bool-cases (key_eq (outpoint_key i) k)) [
        | inl same ↦ rw (key_eq→≡ (outpoint_key i) k same) at e
        | inr other ↦ no_clash k rows held rest (rw other at m)
      ]
]
