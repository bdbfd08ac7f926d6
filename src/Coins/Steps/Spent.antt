-- ===== src/Coins/Steps/Spent.antt =====
-- Behind whatever happens, a spent coin is spent.
use si_lnt.Prelude.{
  ℕ, ◌≡◌, arith, Bool, true, false, not, ◌&&◌, List, [], ◌∷◌, keep, any, is_empty, ◌==◌,
  if◌then◌else◌, if_keeps, Bool-cases, and-true, inl, inr, ok, err,
}
use si_lnt.Prelude.Text.{Text, text_eq, text_eq→≡}
use si_lnt.Coins.{Coin, Table, is_at, is_of, is_spent, mark_utxos_spent_by_tx, taken_by}
use si_lnt.Coins.Dust.{
  update_utxo_dust_flag, set_utxo_freeze_auto, set_utxo_freeze_manual, clear_utxo_freeze_manual,
  clear_utxo_freeze_auto, normalize_unfrozen_override, Flagged, mark_dust, unmark_dust,
  evaluate_rows, Explorer, evaluate_dust_for_wallet, FreezeError, api_set_utxo_frozen,
}
use si_lnt.Coins.Spend.Stays.{
  is_spent_at, spent_here, any-update, insert-stays, outpoints-stay, restore-stays, confirm-stays,
  reconcile-stays, batch-stays,
}
use si_lnt.Coins.Steps.{
  CoinEvent, found, broadcast, discovered, mined, restored, scanned, reconciled, dust_evaluated,
  frozen_by_user, or_unchanged, apply, run_events, broadcasts,
}

module _ (w t : Text) (v : ℕ) where
  flag-stays :
      (x : Text) (n : ℕ) (flag : Bool) (table : Table)
      → is_spent_at w t v table ≡ true
      → is_spent_at w t v (update_utxo_dust_flag x n flag table) ≡ true
  unfolding update_utxo_dust_flag
  flag-stays x n flag table h = any-update w t v _ _ (λ c e e'. e) table h

  auto-stays :
      (x : Text) (n : ℕ) (table : Table)
      → is_spent_at w t v table ≡ true
      → is_spent_at w t v (set_utxo_freeze_auto x n table) ≡ true
  unfolding set_utxo_freeze_auto
  auto-stays x n table h = any-update w t v _ _ (λ c e e'. e) table h

  cleared-stays :
      (x : Text) (n : ℕ) (table : Table)
      → is_spent_at w t v table ≡ true
      → is_spent_at w t v (normalize_unfrozen_override x n (clear_utxo_freeze_auto x n table))
        ≡ true
  unfolding normalize_unfrozen_override clear_utxo_freeze_auto
  cleared-stays x n table h =
      any-update w t v _ _ (λ c e e'. e) _ (any-update w t v _ _ (λ c e e'. e) table h)

  mark-stays :
      (u : Coin) (s : Flagged)
      → is_spent_at w t v s.0 ≡ true
      → is_spent_at w t v (mark_dust u s).0 ≡ true
  unfolding mark_dust
  mark-stays u (table, n) h =
      let flagged =
        if_keeps (λ (table : Table). is_spent_at w t v table ≡ true) u.suspected_dust h
          (flag-stays u.txid u.vout true table h) in
      if_keeps (λ (table : Table). is_spent_at w t v table ≡ true) _ flagged
        (auto-stays u.txid u.vout _ flagged)

  unmark-stays :
      (u : Coin) (s : Flagged)
      → is_spent_at w t v s.0 ≡ true
      → is_spent_at w t v (unmark_dust u s).0 ≡ true
  unfolding unmark_dust
  unmark-stays u (table, n) h = cleared-stays u.txid u.vout _ (
      if_keeps (λ (table : Table). is_spent_at w t v table ≡ true) u.suspected_dust
        (flag-stays u.txid u.vout false table h) h)

  rows-stay :
      (is_dust : Table → Coin → Bool) (rows : List Coin) (s : Flagged)
      → is_spent_at w t v s.0 ≡ true
      → is_spent_at w t v (evaluate_rows is_dust rows s).0 ≡ true
  unfolding evaluate_rows
  rows-stay is_dust [] s h = h
  rows-stay is_dust (u ∷ rows) s h = rows-stay is_dust rows _ (
      if_keeps (λ (s : Flagged). is_spent_at w t v s.0 ≡ true) (is_empty u.txid) h
        (if_keeps (λ (s : Flagged). is_spent_at w t v s.0 ≡ true) (is_dust s.0 u) (mark-stays u s h)
          (unmark-stays u s h)))

  dust-stays :
      (wallet_id : Text) (threshold : ℕ) (inputs_of : Explorer) (table : Table)
      → is_spent_at w t v table ≡ true
      → is_spent_at w t v (evaluate_dust_for_wallet wallet_id threshold inputs_of table).0 ≡ true
  unfolding evaluate_dust_for_wallet
  dust-stays wallet_id threshold inputs_of table h = rows-stay _ _ (table, 0) h

  by_user-stays :
      (x : Text) (n : ℕ) (frozen : Bool) (table : Table)
      → is_spent_at w t v table ≡ true
      → is_spent_at w t v
          (if frozen then set_utxo_freeze_manual x n table else clear_utxo_freeze_manual x n table)
        ≡ true
  unfolding set_utxo_freeze_manual clear_utxo_freeze_manual
  by_user-stays x n true table h = any-update w t v _ _ (λ c e e'. e) table h
  by_user-stays x n false table h = any-update w t v _ _ (λ c e e'. e) table h

  unless_refused :
      (p q : Bool) (e e' : FreezeError) (table next : Table)
      → is_spent_at w t v table ≡ true
      → is_spent_at w t v next ≡ true
      → is_spent_at w t v (or_unchanged table (if p then err e else if q then err e' else ok next))
        ≡ true
  unless_refused true q e e' table next h h' = h
  unless_refused false true e e' table next h h' = h
  unless_refused false false e e' table next h h' = h'

  freeze-stays :
      (owned : List Text) (txid : Text) (vout : ℕ) (frozen : Bool) (table : Table)
      → is_spent_at w t v table ≡ true
      → is_spent_at w t v (or_unchanged table (api_set_utxo_frozen owned txid vout frozen table))
        ≡ true
  unfolding api_set_utxo_frozen
  freeze-stays owned txid vout frozen table h =
      unless_refused (is_empty (keep (λ c. text_eq c.txid txid) table))
        (not (
          any (λ u. u.vout == vout && any (text_eq u.wallet_id) owned)
            (keep (λ c. text_eq c.txid txid) table)))
        _ _ table _ h (by_user-stays txid vout frozen table h)

  not_named :
      (wallet_id : Text) (ps : List (Text × ℕ)) (c : Coin)
      → spent_here w t v c ≡ true
      → (text_eq w wallet_id && any (λ p. text_eq t p.0 && v == p.1) ps) ≡ false
      → (is_of wallet_id c && any (λ p. is_at p c) ps) ≡ false
  not_named wallet_id ps c spent apart =
      let (here, _) = and-true (is_of w c && is_at (t, v) c) (is_spent c.state) spent in
      let (own, at) = and-true (is_of w c) (is_at (t, v) c) here in
      let (tx, n) = and-true (text_eq c.txid t) (c.vout == v) at in
      let n' : c.vout ≡ v = ground (arith, n) in
      rw (text_eq→≡ c.wallet_id w own, text_eq→≡ c.txid t tx, n') apart

  broadcast-stays :
      (wallet_id : Text) (ps : List (Text × ℕ)) (txid : Text) (now : ℕ) (table : Table)
      → (text_eq w wallet_id && any (λ p. text_eq t p.0 && v == p.1) ps) ≡ false
      → is_spent_at w t v table ≡ true
      → is_spent_at w t v (mark_utxos_spent_by_tx wallet_id ps txid now table) ≡ true
  unfolding mark_utxos_spent_by_tx
  broadcast-stays wallet_id ps txid now table apart h =
      if_keeps (λ (table : Table). is_spent_at w t v table ≡ true) (is_empty ps) h
        (any-update w t v _ (taken_by txid now)
          (λ c e e'. absurd (let no = not_named wallet_id ps c e apart in cc (no, e'))) table h)

  apply-stays :
      (event : CoinEvent) (table : Table)
      → broadcasts w t v event ≡ false
      → is_spent_at w t v table ≡ true
      → is_spent_at w t v (apply event table) ≡ true
  unfolding apply
  apply-stays (found wallet_id coins) table apart h = insert-stays w t v _ (table, 0, 0) h
  apply-stays (broadcast wallet_id ps txid now) table apart h =
      broadcast-stays wallet_id ps txid now table apart h
  apply-stays (discovered wallet_id ps txid at) table apart h =
      outpoints-stay w t v wallet_id ps txid at table h
  apply-stays (mined wallet_id txid) table apart h = confirm-stays w t v wallet_id txid table h
  apply-stays (restored wallet_id txid vout) table apart h =
      restore-stays w t v wallet_id txid vout table h
  apply-stays (scanned wallet_id heights) table apart h =
      batch-stays w t v wallet_id heights table h
  apply-stays (reconciled wallet_id status) table apart h =
      reconcile-stays w t v wallet_id status table h
  apply-stays (dust_evaluated wallet_id n inputs_of) table apart h =
      dust-stays wallet_id n inputs_of table h
  apply-stays (frozen_by_user owned txid vout frozen) table apart h =
      freeze-stays owned txid vout frozen table h

-- A coin that a wallet's row says is spent is said to be spent behind whatever happens to the
-- table (coins found again, other spends, restored coins, scans, reconciliations, dust, freezes),
-- unless a transaction that is broadcast names it as an input of that wallet.
pub spent_stays :
    (w t : Text) (v : ℕ) (events : List CoinEvent) (table : Table)
    → any (broadcasts w t v) events ≡ false
    → is_spent_at w t v table ≡ true
    → is_spent_at w t v (run_events events table) ≡ true
unfolding run_events
spent_stays w t v [] table apart h = h
spent_stays w t v (event ∷ events) table apart h = elim (Bool-cases (broadcasts w t v event)) [
  | inl e ↦ absurd (let bad = rw e at apart in cc)
  | inr e ↦ spent_stays w t v events _ (rw e at apart) (apply-stays w t v event table e h)
]
