-- ===== src/Coins/Dust/Pass.antt =====
-- A whole pass over a wallet's coins, and another one behind it.
use si_lnt.Prelude.{
  ℕ, ◌≡◌, refl, ap, ◌∙◌, arith, Bool, true, false, not, ◌&&◌, ◌||◌, Option, none, some, List, [],
  ◌∷◌, ◌++◌, map, keep, any, sum_of, is_empty, if◌then◌else◌, Bool-cases, inl, inr,
}
use si_lnt.Prelude.Text.{Text}
use si_lnt.Coins.{
  FreezeReason, auto, manual, manual_unfrozen, Coin, Table, is_at, is_of, is_unspent_state,
  is_spent_in,
}
use si_lnt.Coins.Dust.{
  is_null_or_auto, is_own_sent_tx, Explorer, inputs_match, funding_tx_inputs_match_owned,
  should_be_dust, evaluate_dust_for_wallet,
}
use si_lnt.Coins.Dust.Settled.{settle, newly, IsSolo}
use si_lnt.Coins.Dust.Loop.{evaluate_rows-pass}

-- What does not look at the flag and the freeze is the same of a settled coin.
settle-keeps :
    {A : Type 0} (g : Coin → A)
    → ((x : Coin) (f : Bool) (r : Option FreezeReason) (s : Bool)
        → g (record x { frozen = f; freeze_reason = r; suspected_dust = s }) ≡ g x)
    → (b : Bool) (c : Coin) → g (settle b c) ≡ g c
settle-keeps g keeps false c = keeps c _ _ _
settle-keeps g keeps true c = elim (Bool-cases (is_null_or_auto c.freeze_reason)) [
  | inl e ↦ rw e (keeps c _ _ _)
  | inr e ↦ rw e (keeps c _ _ _)
]

settle_idem : (b : Bool) (c : Coin) → settle b (settle b c) ≡ settle b c
settle_idem b c = by_reason b c.freeze_reason refl
  where
    by_reason :
        (b : Bool) (r : Option FreezeReason)
        → c.freeze_reason ≡ r
        → settle b (settle b c) ≡ settle b c
    by_reason true none e = rw e refl
    by_reason true (some auto) e = rw e refl
    by_reason true (some manual) e = rw e refl
    by_reason true (some manual_unfrozen) e = rw e refl
    by_reason false none e = rw e refl
    by_reason false (some auto) e = rw e refl
    by_reason false (some manual) e = rw e refl
    by_reason false (some manual_unfrozen) e = rw e refl

newly-settle : (b : Bool) (c : Coin) → newly b (settle b c) ≡ 0
newly-settle false c = refl
newly-settle true c = elim (Bool-cases (is_null_or_auto c.freeze_reason)) [
  | inl e ↦ rw e refl
  | inr e ↦ rw e refl
]

any-middle :
    (q : Coin → Bool) (pre post : Table) (c c' : Coin)
    → q c' ≡ q c
    → any q (pre ++ c' ∷ post) ≡ any q (pre ++ c ∷ post)
any-middle q [] post c c' h = rw h refl
any-middle q (d ∷ pre) post c c' h = ap (λ b. q d || b) (any-middle q pre post c c' h)

any-map :
    (q : Coin → Bool) (f : Coin → Coin)
    → ((c : Coin) → q (f c) ≡ q c)
    → (table : Table) → any q (map f table) ≡ any q table
any-map q f h [] = refl
any-map q f h (c ∷ table) = rw (h c, any-map q f h table) refl

any-kept :
    (q p : Coin → Bool) (f : Coin → Coin)
    → ((c : Coin) → q (f c) ≡ q c)
    → ((c : Coin) → p (f c) ≡ p c)
    → (table : Table) → any q (keep p (map f table)) ≡ any q (keep p table)
any-kept q p f h g [] = refl
any-kept q p f h g (c ∷ table) = elim (Bool-cases (p c)) [
  | inl e ↦ rw (g c, e) (rw (h c, any-kept q p f h g table) refl)
  | inr e ↦ rw (g c, e) (any-kept q p f h g table)
]

IsSolo-map :
    (f : Coin → Coin)
    → ((c : Coin) (p : Text × ℕ) → is_at p (f c) ≡ is_at p c)
    → ((c : Coin) → ◌≡◌ {A = Text × ℕ} ((f c).txid, (f c).vout) (c.txid, c.vout))
    → (table : Table) → IsSolo table
    → IsSolo (map f table)
IsSolo-map f h k [] solo = tt
IsSolo-map f h k (c ∷ table) (alone, solo) = (
  ap (λ p. any (is_at p) (map f table)) (k c)
      ∙ any-map (is_at (c.txid, c.vout)) f (λ d. h d (c.txid, c.vout)) table
      ∙ alone,
  IsSolo-map f h k table solo,
)

map_same :
    (f g : Coin → Coin)
    → ((c : Coin) → f (g c) ≡ g c)
    → (table : Table) → map f (map g table) ≡ map g table
map_same f g h [] = refl
map_same f g h (c ∷ table) = rw (h c, map_same f g h table) refl

sum_none :
    (f : Coin → ℕ) (g : Coin → Coin)
    → ((c : Coin) → f (g c) ≡ 0)
    → (table : Table) → sum_of f (map g table) ≡ 0
sum_none f g h [] = refl
sum_none f g h (c ∷ table) = omega (arith, h c, sum_none f g h table)

module _ (wallet_id : Text) (threshold : ℕ) (inputs_of : Explorer) where
  abbrev mine : Coin → Bool
  mine c = is_of wallet_id c && is_unspent_state c.state

  -- Whether a coin counts as dust, on the table that the pass begins with.
  abbrev pub counts : Table → Coin → Bool
  counts table = should_be_dust wallet_id threshold inputs_of (keep (is_of wallet_id) table) table

  counts-stable :
      (owned : List Coin) (pre post : Table) (c u : Coin) (b : Bool)
      → should_be_dust wallet_id threshold inputs_of owned (pre ++ settle b c ∷ post) u
        ≡ should_be_dust wallet_id threshold inputs_of owned (pre ++ c ∷ post) u
  unfolding should_be_dust is_own_sent_tx
  counts-stable owned pre post c u b =
      rw
        (any-middle (λ d. is_of wallet_id d && is_spent_in u.txid d.spent_in_txid) pre post c
          (settle b c)
          (settle-keeps (λ d. is_of wallet_id d && is_spent_in u.txid d.spent_in_txid)
            (λ x f r s. refl) b c))
        refl

  abbrev pub after : Table → Coin → Coin
  after table c = if mine c && not (is_empty c.txid) then settle (counts table c) c else c

  abbrev pub flags : Table → Coin → ℕ
  flags table c = if mine c && not (is_empty c.txid) then newly (counts table c) c else 0

  pub evaluate-map :
      (table : Table)
      → IsSolo table
      → evaluate_dust_for_wallet wallet_id threshold inputs_of table
        ≡ (map (after table) table, sum_of (flags table) table)
  unfolding evaluate_dust_for_wallet
  evaluate-map table solo =
      evaluate_rows-pass
        (should_be_dust wallet_id threshold inputs_of (keep (is_of wallet_id) table)) mine
        (counts table) (counts-stable (keep (is_of wallet_id) table)) table solo (λ u. refl)

  module _ (table : Table) where
    after-keeps :
        {A : Type 0} (g : Coin → A)
        → ((x : Coin) (f : Bool) (r : Option FreezeReason) (s : Bool)
            → g (record x { frozen = f; freeze_reason = r; suspected_dust = s }) ≡ g x)
        → (c : Coin) → g (after table c) ≡ g c
    after-keeps g keeps c = elim (Bool-cases (mine c && not (is_empty c.txid))) [
      | inl e ↦ rw e (settle-keeps g keeps (counts table c) c)
      | inr e ↦ rw e refl
    ]

    owned-same :
        (o : Option (List (Text × ℕ)))
        → inputs_match (keep (is_of wallet_id) (map (after table) table)) o
          ≡ inputs_match (keep (is_of wallet_id) table) o
    owned-same none = refl
    owned-same (some []) = refl
    owned-same (some (p ∷ inputs)) =
        rw
          (
            any-kept (is_at p) (is_of wallet_id) (after table)
                (after-keeps (is_at p) (λ x f r s. refl))
                (after-keeps (is_of wallet_id) (λ x f r s. refl)) table,
            owned-same (some inputs),
          )
          refl

    sent-same :
        (txid : Text)
        → is_own_sent_tx wallet_id txid (map (after table) table)
          ≡ is_own_sent_tx wallet_id txid table
    unfolding is_own_sent_tx
    sent-same txid =
        any-map (λ d. is_of wallet_id d && is_spent_in txid d.spent_in_txid) (after table)
          (after-keeps (λ d. is_of wallet_id d && is_spent_in txid d.spent_in_txid)
            (λ x f r s. refl))
          table

    counts-unflagged :
        (owned : List Coin) (t : Table) (x : Coin) (f : Bool) (r : Option FreezeReason) (s : Bool)
        → should_be_dust wallet_id threshold inputs_of owned t
            (record x { frozen = f; freeze_reason = r; suspected_dust = s })
          ≡ should_be_dust wallet_id threshold inputs_of owned t x
    unfolding should_be_dust
    counts-unflagged owned t x f r s = refl

    counts-same : (u : Coin) → counts (map (after table) table) u ≡ counts table u
    unfolding should_be_dust funding_tx_inputs_match_owned
    counts-same u = rw (sent-same u.txid, owned-same (inputs_of u.txid)) refl

    counts-after : (u : Coin) → counts (map (after table) table) (after table u) ≡ counts table u
    counts-after u =
        after-keeps (counts (map (after table) table)) (counts-unflagged _ _) u ∙ counts-same u

    kept :
        (c : Coin)
        → (mine (after table c) && not (is_empty (after table c).txid))
          ≡ (mine c && not (is_empty c.txid))
    kept c = after-keeps (λ d. mine d && not (is_empty d.txid)) (λ x f r s. refl) c

    again : (c : Coin) → after (map (after table) table) (after table c) ≡ after table c
    again c = elim (Bool-cases (mine c && not (is_empty c.txid))) [
      | inl e ↦ rw (kept c ∙ e, counts-after c) (rw e (settle_idem (counts table c) c))
      | inr e ↦ rw (kept c ∙ e) refl
    ]

    no_more : (c : Coin) → flags (map (after table) table) (after table c) ≡ 0
    no_more c = elim (Bool-cases (mine c && not (is_empty c.txid))) [
      | inl e ↦ rw (kept c ∙ e, counts-after c) (rw e (newly-settle (counts table c) c))
      | inr e ↦ rw (kept c ∙ e) refl
    ]

    after-IsSolo : IsSolo table → IsSolo (map (after table) table)
    after-IsSolo solo =
        IsSolo-map (after table) (λ c p. after-keeps (is_at p) (λ x f r s. refl) c)
          (λ c. after-keeps (λ d. (d.txid, d.vout)) (λ x f r s. refl) c) table solo

  -- Where no two wallets share an outpoint, a pass over a wallet changes each of its unspent coins
  -- on its own: one that counts as dust is flagged, and frozen unless the user froze or unfroze it;
  -- another is not flagged, is let go where it was frozen for being dust, and stays as the user
  -- froze it. The pass counts the flags it sets. A second pass changes nothing and sets none.
  pub evaluate_dust_lem :
      (table : Table)
      → IsSolo table
      → let next = map (after table) table in
        (evaluate_dust_for_wallet wallet_id threshold inputs_of table
          ≡ (next, sum_of (flags table) table))
        × (evaluate_dust_for_wallet wallet_id threshold inputs_of next ≡ (next, 0))
  evaluate_dust_lem table solo =
      let next = map (after table) table in
      let same = map_same (after next) (after table) (again table) table in
      let none_more = sum_none (flags next) (after table) (no_more table) table in
      (evaluate-map table solo, evaluate-map next (after-IsSolo table solo) ∙ cc (same, none_more))
