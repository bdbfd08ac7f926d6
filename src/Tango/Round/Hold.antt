-- ===== src/Tango/Round/Hold.antt =====
-- How the rounds that hold a coin change with the table, and what a handler that went through has
-- tested.
use si_lnt.Prelude.{
  is_empty, ℕ, ◌+◌, ◌≤◌, ◌≡◌, refl, sym, arith, Bool, true, false, not, ◌&&◌, ◌||◌, Option, none,
  some, List, [], ◌∷◌, ◌++◌, if◌then◌else◌, Result, ok, ◌>>=◌, ◌>>◌, refuse_if-eq-ok, Bool-cases,
  inl, inr, sum_of-append, ◌⊎◌,
}
use si_lnt.Prelude.Text.{Text, text_eq, text_eq→≡}
use si_lnt.Floats.{Floats}
use si_lnt.Payjoin.Inputs.{PayjoinInput}
use si_lnt.Tango.Plan.{Amounts}
use si_lnt.Tango.Turns.{
  Status, is_terminal, proposed, accepted, a_signed, broadcast, cancelled, require_turn, whose_turn,
}
use si_lnt.Tango.Round.Reserve.{
  Round, is_live, clashing_outpoints, get_reserved_tango_outpoints, is_user, holds, holders,
  held_by, unreserved, no_clash, has_key, keys_of, has_key-append,
}
use si_lnt.Tango.Round.Handlers.{
  Refused, get_tango_round, update_tango_round, or_refuse, turn_refused, refuse_reserved,
}

pub or_refuse-eq-ok :
    {A : Type 0} (o : Option A) (e : Refused) {a : A} → or_refuse o e ≡ ok a → o ≡ some a
or_refuse-eq-ok none e h = cc
or_refuse-eq-ok (some a) e h = cc

-- A round that is found and refused otherwise.
pub found :
    {A B : Type 0} (o : Option A) (e : Refused) (k : A → Result Refused B) {b : B}
    → (or_refuse o e >>= k) ≡ ok b
    → (a : A) × (o ≡ some a) × (k a ≡ ok b)
found none e k h = cc
found (some a) e k h = (a, refl, h)

pub is_empty→≡ : {A : Type 0} (xs : List A) → not (is_empty xs) ≡ false → xs ≡ []
is_empty→≡ [] h = refl
is_empty→≡ (x ∷ xs) h = cc

pub both : (a b : Bool) → a && b ≡ true → (a ≡ true) × (b ≡ true)
both true b h = (refl, h)
both false b h = cc

pub same_user :
    (o : Option Text) (uid u : Text) (b : Bool)
    → is_user o uid ≡ true
    → is_user o u && b ≡ true
    → text_eq uid u && b ≡ true
same_user none uid u b h g = cc
same_user (some v) uid u b h g =
    let (e, p) = both (text_eq v u) b g in rw (← text_eq→≡ v uid h) (rw (e, p) refl)

pub turn-open :
    (status : Status) (role : Text) {u : Unit {0}}
    → turn_refused (require_turn status role) ≡ ok u
    → is_terminal status ≡ false
unfolding require_turn whose_turn
turn-open proposed role h = refl
turn-open accepted role h = refl
turn-open a_signed role h = refl
turn-open broadcast role h = absurd (ground (arith, h))
turn-open cancelled role h = absurd (ground (arith, h))

pub open_live : (status : Status) → is_terminal status ≡ false → is_live status ≡ true
open_live proposed h = refl
open_live accepted h = refl
open_live a_signed h = refl
open_live broadcast h = refl
open_live cancelled h = cc

module _ {fl : Floats} where
  pub holds-le : (u : Text) (k : Text × ℕ) (r : Round fl) → holds u k r ≤ 1
  holds-le u k r = ground arith

  pub update-holders :
      (u : Text) (k : Text × ℕ) (rid : Text) (r new : Round fl) (s : List (Round fl))
      → get_tango_round rid s ≡ some r
      → holders u k (update_tango_round rid new s) + holds u k r ≡ holders u k s + holds u k new
  unfolding get_tango_round update_tango_round
  update-holders u k rid r new [] h = cc
  update-holders u k rid r new (x ∷ s) h = elim (Bool-cases (text_eq x.id rid)) [
    | inl e ↦
        let same : x ≡ r = (let h1 = rw (e, get_tango_round) at h in cc h1) in
        rw (e, update_tango_round) (rw same (omega arith))
    | inr e ↦
        rw (e, update_tango_round)
          (omega (arith, update-holders u k rid r new s (rw (e, get_tango_round) at h)))
  ]

  -- At most one live round holds a coin.
  pub record IsReserved (s : List (Round fl)) : Type 0 where
    pub at_coin : (u : Text) (k : Text × ℕ) → holders u k s ≤ 1

  -- A round that takes no coin that another holds may stand in another's place.
  pub update-IsReserved :
      (rid : Text) (r new : Round fl) (s : List (Round fl))
      → get_tango_round rid s ≡ some r
      → ((u : Text) (k : Text × ℕ) → (holds u k new ≤ holds u k r) ⊎ (holders u k s ≡ 0))
      → IsReserved s
      → IsReserved (update_tango_round rid new s)
  update-IsReserved rid r new s h fits v = record {
    at_coin = λ u k.
        omega (arith, update-holders u k rid r new s h, fits u k, v.at_coin u k, holds-le u k new);
  }

  pub refuse_reserved-eq-ok :
      {B : Type 0} (u : Text) (rows : List PayjoinInput) (s : List (Round fl))
      (next : Result Refused B) {b : B}
      → (refuse_reserved u rows s >> next) ≡ ok b
      → (clashing_outpoints rows (get_reserved_tango_outpoints u s) ≡ []) × (next ≡ ok b)
  refuse_reserved-eq-ok u rows s next h =
      let (e, rest) = refuse_if-eq-ok _ _ next h in (is_empty→≡ _ e, rest)

  -- The side of a round that a user is, and whether it holds a coin.
  abbrev in_a : Text → Text × ℕ → Round fl → Bool
  in_a u k r = text_eq r.a_user_id u && has_key k (keys_of r.a_inputs)

  abbrev in_b : Text → Text × ℕ → Round fl → Bool
  in_b u k r = is_user r.b_user_id u && has_key k (keys_of r.b_inputs)

  pub holds_lem :
      (u : Text) (k : Text × ℕ) (r : Round fl)
      → holds u k r ≡ (if is_live r.status && (in_a u k r || in_b u k r) then 1 else 0)
  unfolding held_by
  holds_lem u k r = ground (
    arith,
    has_key-append k (if text_eq r.a_user_id u then keys_of r.a_inputs else [])
        (if is_user r.b_user_id u then keys_of r.b_inputs else []),
  )

  -- A user whose coins do not clash holds none of them.
  pub free_coin :
      (user u : Text) (k : Text × ℕ) (rows : List PayjoinInput) (s : List (Round fl))
      → clashing_outpoints rows (get_reserved_tango_outpoints user s) ≡ []
      → text_eq user u && has_key k (keys_of rows) ≡ true
      → holders u k s ≡ 0
  free_coin user u k rows s free h =
      let (same, mem) = both _ _ h in
      let e = text_eq→≡ user u same in rw (sym e) (unreserved user k s (no_clash k rows _ free mem))

  pub only_a :
      (u : Text) (k : Text × ℕ) (r : Round fl)
      → r.b_inputs ≡ []
      → in_a u k r ≡ false
      → holds u k r ≡ 0
  only_a u k r alone e = rw (holds_lem u k r, e, alone) (ground arith)

  pub joined-le :
      (u : Text) (k : Text × ℕ) (r : Round fl) (rows : List PayjoinInput) (paid : Option Amounts)
      → is_live r.status ≡ true
      → is_user r.b_user_id u && has_key k (keys_of rows) ≡ false
      → holds u k (record r { status = accepted; b_inputs = rows; amounts = paid }) ≤ holds u k r
  joined-le u k r rows paid live other =
      let new = record r { status = accepted; b_inputs = rows; amounts = paid } in
      rw (holds_lem u k r, holds_lem u k new, other, live) (ground arith)

  pub moved-le :
      (u : Text) (k : Text × ℕ) (r : Round fl) (status : Status) (why : Option Text)
      → is_live r.status ≡ true
      → holds u k (record r { status = status; reject_reason = why }) ≤ holds u k r
  moved-le u k r status why live =
      rw (holds_lem u k r, holds_lem u k (record r { status = status; reject_reason = why }), live)
        (ground arith)

  pub closed-le :
      (u : Text) (k : Text × ℕ) (r : Round fl) (why : Option Text)
      → holds u k (record r { status = cancelled; reject_reason = why }) ≤ holds u k r
  closed-le u k r why =
      rw (holds_lem u k (record r { status = cancelled; reject_reason = why })) (omega arith)

  pub append-IsReserved :
      (new : Round fl) (s : List (Round fl))
      → ((u : Text) (k : Text × ℕ) → (holds u k new ≡ 0) ⊎ (holders u k s ≡ 0))
      → IsReserved s
      → IsReserved (s ++ new ∷ [])
  append-IsReserved new s fits v = record {
    at_coin = λ u k.
        rw (sum_of-append (holds u k) s (new ∷ []))
          (omega (arith, fits u k, v.at_coin u k, holds-le u k new));
  }

  -- A round with the coins of its first side only, none of which clashes, may be added.
  pub offered-IsReserved :
      (new : Round fl) (s : List (Round fl))
      → new.b_inputs ≡ []
      → clashing_outpoints new.a_inputs (get_reserved_tango_outpoints new.a_user_id s) ≡ []
      → IsReserved s
      → IsReserved (s ++ new ∷ [])
  offered-IsReserved new s alone free v =
      append-IsReserved new s
        (λ u k. elim (Bool-cases (in_a u k new)) [
          | inl e ↦ inr (free_coin new.a_user_id u k new.a_inputs s free e)
          | inr e ↦ inl (only_a u k new alone e)
        ])
        v

  -- The second side's coins, none of which clashes, may join a live round.
  pub joined-IsReserved :
      (rid uid : Text) (r : Round fl) (rows : List PayjoinInput) (paid : Option Amounts)
      (s : List (Round fl))
      → get_tango_round rid s ≡ some r
      → is_user r.b_user_id uid ≡ true
      → is_live r.status ≡ true
      → clashing_outpoints rows (get_reserved_tango_outpoints uid s) ≡ []
      → IsReserved s
      → IsReserved (
          update_tango_round rid
            (record r { status = accepted; b_inputs = rows; amounts = paid })
            s)
  joined-IsReserved rid uid r rows paid s at mine live free v =
      let new = record r { status = accepted; b_inputs = rows; amounts = paid } in
      update-IsReserved rid r new s at
        (λ u k. elim (Bool-cases (in_b u k new)) [
          | inl e ↦ inr (free_coin uid u k rows s free (same_user r.b_user_id uid u _ mine e))
          | inr e ↦ inl (joined-le u k r rows paid live e)
        ])
        v
