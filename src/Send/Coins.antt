-- ===== src/Send/Coins.antt =====
-- helpers/send_guards.py (`validate_spendable_utxos`) and crud.py (`get_eligible_utxos`): the coins
-- that a send may spend.
use si_lnt.Prelude.{
  ℕ, ◌≡◌, refl, ◌∙◌, Bool, true, false, not, ◌&&◌, List, [], ◌∷◌, any, all, keep, is_empty,
  if◌then◌else◌, Bool-cases, or_right, and-true, and_true, not-true, ==_iff, sym, ◌⊎◌, ◌↔◌, inl,
  inr, Result, ok, err, ◌>>◌, refuse_if,
}
use si_lnt.Prelude.Text.{Text, text_eq, text_eq→≡, text_eq_refl}
use si_lnt.Coins.{
  CoinState, unspent, unconfirmed, unconfirmed_spent, spent, Coin, Table, is_at, is_of,
  is_unspent_state,
}

abbrev pub is_spendable : Text → Coin → Bool
is_spendable wallet_id c = is_of wallet_id c && is_unspent_state c.state && not c.frozen

unfoldable pub get_eligible_utxos : List Coin → Text → List (Text × ℕ) → List Coin
get_eligible_utxos table wallet_id pairs =
    if is_empty pairs
    then []
    else keep (λ c. is_spendable wallet_id c && any (λ p. is_at p c) pairs) table

-- The two wordings are of the same refusal.
pub data CoinsError : Type 0 where
  no_coins : CoinsError
  not_spendable : (during_scan : Bool) → (rejected : List (Text × ℕ)) → CoinsError

unfoldable pub validate_spendable_utxos :
    List Coin → Text → List (Text × ℕ) → Bool → Result CoinsError (List Coin)
validate_spendable_utxos table wallet_id pairs scanning = do
  refuse_if (is_empty pairs) no_coins
  let rows = get_eligible_utxos table wallet_id pairs
  let rejected = keep (λ p. not (any (is_at p) rows)) pairs
  refuse_if (not (is_empty rejected)) (not_spendable scanning rejected)
  ok rows

abbrev pub is_ok : {E A : Type 0} → Result E A → Bool
is_ok (ok a) = true
is_ok (err e) = false

none_kept :
    {A : Type 0} (p : A → Bool) (xs : List A) → is_empty (keep (λ x. not (p x)) xs) ≡ all p xs
none_kept p [] = refl
none_kept p (x ∷ xs) = elim (Bool-cases (p x)) [ inl e ↦ rw e (none_kept p xs) | inr e ↦ rw e refl ]

any_kept :
    {A : Type 0} (p q r : A → Bool) (xs : List A)
    → ((x : A) → r x ≡ true → q x ≡ true)
    → any r (keep (λ x. p x && q x) xs) ≡ any (λ x. p x && r x) xs
any_kept p q r [] h = refl
any_kept p q r (x ∷ xs) h = elim (Bool-cases (p x)) [
  | inr e ↦ rw e (any_kept p q r xs h)
  | inl e ↦ elim (Bool-cases (r x)) [
    | inl e' ↦ rw (e, h x e', e') refl
    | inr e' ↦ elim (Bool-cases (q x)) [
      | inl e2 ↦ rw (e, e2, e', any_kept p q r xs h) refl
      | inr e2 ↦ rw (e, e2, e', any_kept p q r xs h) refl
    ]
  ]
]

all_kept :
    (table : List Coin) (wallet_id : Text) (pairs rest : List (Text × ℕ))
    → ((c : Coin) → any (λ p. is_at p c) rest ≡ true → any (λ p. is_at p c) pairs ≡ true)
    → all
        (λ p.
          any (is_at p) (keep (λ c. is_spendable wallet_id c && any (λ p. is_at p c) pairs) table))
        rest
      ≡ all (λ p. any (λ c. is_spendable wallet_id c && is_at p c) table) rest
all_kept table wallet_id pairs [] h = refl
all_kept table wallet_id pairs (p ∷ rest) h =
    rw
      (
        any_kept (is_spendable wallet_id) (λ c. any (λ p. is_at p c) pairs) (is_at p) table
            (λ c e. h c (rw e refl)),
        all_kept table wallet_id pairs rest (λ c e. h c (or_right (is_at p c) _ e)),
      )
      refl

refused_unless :
    {E A : Type 0} (test : Bool) (e : E) (a : A) → is_ok (refuse_if (not test) e >> ok a) ≡ test
refused_unless true e a = refl
refused_unless false e a = refl

is_ok-all :
    (table : List Coin) (wallet_id : Text) (pairs : List (Text × ℕ)) (scanning : Bool)
    → is_ok (validate_spendable_utxos table wallet_id pairs scanning) ≡ (
        not (is_empty pairs)
        && all (λ p. any (λ c. is_spendable wallet_id c && is_at p c) table) pairs)
unfolding validate_spendable_utxos get_eligible_utxos
is_ok-all table wallet_id [] scanning = refl
is_ok-all table wallet_id (p ∷ pairs) scanning =
    let asked = p ∷ pairs in
    let rows = keep (λ c. is_spendable wallet_id c && any (λ p. is_at p c) asked) table in
    refused_unless _ _ rows
    ∙ none_kept (λ p. any (is_at p) rows) asked
    ∙ all_kept table wallet_id asked asked (λ c e. e)

-- A row of the table.
abbrev pub IsRow : Coin → Table → Type 0
IsRow c [] = ⊥
IsRow c (d ∷ table) = (c ≡ d) ⊎ IsRow c table

-- A row that stands for an outpoint of the wallet, and may be spent.
pub record IsFree (table : Table) (wallet_id : Text) (p : Text × ℕ) : Type 0 where
  coin : Coin
  row : IsRow coin table
  owner : coin.wallet_id ≡ wallet_id
  txid : coin.txid ≡ p.0
  vout : coin.vout ≡ p.1
  state : coin.state ≡ unspent
  frozen : coin.frozen ≡ false

abbrev pub AreFree : Table → Text → List (Text × ℕ) → Type 0
AreFree table wallet_id [] = Unit {0}
AreFree table wallet_id (p ∷ pairs) = IsFree table wallet_id p × AreFree table wallet_id pairs

unspent_only : (state : CoinState) → is_unspent_state state ≡ true → state ≡ unspent
unspent_only unspent h = refl
unspent_only unconfirmed h = cc h
unspent_only unconfirmed_spent h = cc h
unspent_only spent h = cc h

abbrev fits : Text → Text × ℕ → Coin → Bool
fits wallet_id p c = is_spendable wallet_id c && is_at p c

free-there :
    (wallet_id : Text) (p : Text × ℕ) (c : Coin) (table : Table)
    → IsRow c table
    → fits wallet_id p c ≡ true
    → any (fits wallet_id p) table ≡ true
free-there wallet_id p c [] there fit = absurd there
free-there wallet_id p c (d ∷ table) (inl e) fit = rw (sym e, fit) refl
free-there wallet_id p c (d ∷ table) (inr there) fit =
    or_right (fits wallet_id p d) _ (free-there wallet_id p c table there fit)

IsFree-fits :
    (wallet_id : Text) (p : Text × ℕ) (table : Table)
    → IsFree table wallet_id p
    → any (fits wallet_id p) table ≡ true
IsFree-fits wallet_id p table h = free-there wallet_id p h.coin table h.row (
    rw (h.owner, h.txid, h.vout, h.state, h.frozen, text_eq_refl wallet_id, text_eq_refl p.0)
      ((==_iff p.1 p.1).1 refl))

fits-IsFree :
    (wallet_id : Text) (p : Text × ℕ) (table : Table)
    → any (fits wallet_id p) table ≡ true
    → IsFree table wallet_id p
fits-IsFree wallet_id p [] h = absurd (let bad = h in cc)
fits-IsFree wallet_id p (c ∷ table) h = elim (Bool-cases (fits wallet_id p c)) [
  | inl e ↦
      let (may, at) = and-true (is_spendable wallet_id c) _ e in
      let (own, free) = and-true _ (not c.frozen) may in
      let (mine, is_unspent) = and-true (is_of wallet_id c) _ own in
      let (tx, index) = and-true (text_eq c.txid p.0) _ at in
      record {
        coin = c;
        row = inl refl;
        owner = text_eq→≡ c.wallet_id wallet_id mine;
        txid = text_eq→≡ c.txid p.0 tx;
        vout = (==_iff c.vout p.1).0 index;
        state = unspent_only c.state is_unspent;
        frozen = not-true c.frozen free;
      }
  | inr e ↦
      let there = fits-IsFree wallet_id p table (rw e at h) in
      record {
        coin = there.coin;
        row = inr there.row;
        owner = there.owner;
        txid = there.txid;
        vout = there.vout;
        state = there.state;
        frozen = there.frozen;
      }
]

all_free :
    (wallet_id : Text) (table : Table) (pairs : List (Text × ℕ))
    → (all (λ p. any (fits wallet_id p) table) pairs ≡ true) ↔ AreFree table wallet_id pairs
all_free wallet_id table [] = (λ h. tt, λ h. refl)
all_free wallet_id table (p ∷ pairs) =
    let (to, back) = all_free wallet_id table pairs in
    (
      λ h. let (one, more) = and-true _ _ h in (fits-IsFree wallet_id p table one, to more),
      λ h. and_true _ _ (IsFree-fits wallet_id p table h.0) (back h.1),
    )

-- A selection of coins is accepted exactly when it is not empty and each outpoint of it is that of
-- a row of the wallet that is unspent and not frozen.
pub validate_spendable_utxos_iff :
    (table : List Coin) (wallet_id : Text) (pairs : List (Text × ℕ)) (scanning : Bool)
    → (is_ok (validate_spendable_utxos table wallet_id pairs scanning) ≡ true)
      ↔ ((is_empty pairs ≡ false) × AreFree table wallet_id pairs)
validate_spendable_utxos_iff table wallet_id pairs scanning =
    let same = is_ok-all table wallet_id pairs scanning in
    let (to, back) = all_free wallet_id table pairs in
    (
      λ h.
          let (some_asked, all_fit) = and-true _ _ (sym same ∙ h) in
          (not-true (is_empty pairs) some_asked, to all_fit),
      λ h. same ∙ and_true _ _ (rw h.0 refl) (back h.1),
    )
