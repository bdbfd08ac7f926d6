-- ===== src/Coins/Dust/Settled.antt =====
-- What a pass over a wallet's coins leaves.
use si_lnt.Prelude.{
  ℕ, ◌+◌, ◌≡◌, refl, ap, ◌∙◌, arith, Bool, true, false, not, ◌&&◌, Option, none, some, [], ◌∷◌,
  ◌++◌, any, if◌then◌else◌, if-eq, Bool-cases, inl, inr,
}
use si_lnt.Prelude.Text.{Text, text_eq_refl}
use si_lnt.Prelude.Order.{text_eq_sym}
use si_lnt.Coins.{FreezeReason, auto, manual, manual_unfrozen, Coin, Table, update_where, is_at}
use si_lnt.Coins.Dust.{
  is_auto, is_unfrozen, is_null_or_auto, update_utxo_dust_flag, freeze, set_utxo_freeze_auto,
  clear_utxo_freeze_auto, normalize_unfrozen_override, get_utxo_freeze_reason, is_users, mark_dust,
  unmark_dust,
}

-- A coin that counts as dust is flagged, and frozen unless the user froze or unfroze it.
abbrev pub dusty : Coin → Coin
dusty c =
    if is_null_or_auto c.freeze_reason
    then freeze auto (record c { suspected_dust = true })
    else record c { suspected_dust = true }

-- Another one is not flagged; what was frozen for being dust is let go, and what the user unfroze
-- is as if it had never been frozen.
abbrev pub clean_reason : Option FreezeReason → Option FreezeReason
clean_reason (some manual) = some manual
clean_reason _ = none

abbrev pub clean : Coin → Coin
clean c = record c {
  suspected_dust = false;
  frozen = if is_auto c.freeze_reason then false else c.frozen;
  freeze_reason = clean_reason c.freeze_reason;
}

abbrev pub settle : Bool → Coin → Coin
settle dust c = if dust then dusty c else clean c

-- Each outpoint is in one row: the wallets share none.
abbrev pub IsSolo : Table → Type 0
IsSolo [] = Unit
IsSolo (c ∷ table) = (any (is_at (c.txid, c.vout)) table ≡ false) × IsSolo table

at_self : (c : Coin) → is_at (c.txid, c.vout) c ≡ true
at_self c = rw (text_eq_refl c.txid) (ground arith)

pub at_sym : (c d : Coin) → is_at (c.txid, c.vout) d ≡ is_at (d.txid, d.vout) c
at_sym c d = ground (arith, text_eq_sym c.txid d.txid)

none_updated :
    (p : Text × ℕ) (test : Coin → Bool) (set : Coin → Coin)
    → ((c : Coin) → is_at p c ≡ false → test c ≡ false)
    → (table : Table) → any (is_at p) table ≡ false
    → update_where test set table ≡ table
none_updated p test set only [] h = refl
none_updated p test set only (c ∷ table) h = elim (Bool-cases (is_at p c)) [
  | inl e ↦ absurd (let bad = rw e at h in cc)
  | inr e ↦ rw (only c e) (ap (λ t. c ∷ t) (none_updated p test set only table (rw e at h)))
]

-- A statement on a row that stands alone.
update-middle :
    (p : Text × ℕ) (test : Coin → Bool) (set : Coin → Coin)
    → ((c : Coin) → is_at p c ≡ false → test c ≡ false)
    → (pre post : Table) (c : Coin) → any (is_at p) pre ≡ false
    → any (is_at p) post ≡ false
    → update_where test set (pre ++ c ∷ post) ≡ pre ++ (if test c then set c else c) ∷ post
update-middle p test set only [] post c h g =
    ap (λ t. (if test c then set c else c) ∷ t) (none_updated p test set only post g)
update-middle p test set only (d ∷ pre) post c h g = elim (Bool-cases (is_at p d)) [
  | inl e ↦ absurd (let bad = rw e at h in cc)
  | inr e ↦ rw (only d e) (ap (λ t. d ∷ t) (update-middle p test set only pre post c (rw e at h) g))
]

reason-middle :
    (pre post : Table) (c : Coin) (t : Text) (v : ℕ)
    → any (is_at (t, v)) pre ≡ false
    → is_at (t, v) c ≡ true
    → get_utxo_freeze_reason t v (pre ++ c ∷ post) ≡ c.freeze_reason
unfolding get_utxo_freeze_reason
reason-middle [] post c t v h here = rw here refl
reason-middle (d ∷ pre) post c t v h here = elim (Bool-cases (is_at (t, v) d)) [
  | inl e ↦ absurd (let bad = rw e at h in cc)
  | inr e ↦ rw e (reason-middle pre post c t v (rw e at h) here)
]

module _ (pre post : Table) (t : Text) (v : ℕ) (alone : any (is_at (t, v)) pre ≡ false)
    (alone' : any (is_at (t, v)) post ≡ false) where
  flag-middle :
      (flag : Bool) (c : Coin)
      → is_at (t, v) c ≡ true
      → update_utxo_dust_flag t v flag (pre ++ c ∷ post)
        ≡ pre ++ record c { suspected_dust = flag } ∷ post
  unfolding update_utxo_dust_flag
  flag-middle flag c here =
      update-middle (t, v) _ _ (λ d e. e) pre post c alone alone' ∙ rw here refl

  only_here :
      (g : Coin → Bool) (d : Coin) → is_at (t, v) d ≡ false → (is_at (t, v) d && g d) ≡ false
  only_here g d away = rw away refl

  auto-middle :
      (c : Coin)
      → is_at (t, v) c ≡ true
      → set_utxo_freeze_auto t v (pre ++ c ∷ post)
        ≡ pre ++ (if is_null_or_auto c.freeze_reason then freeze auto c else c) ∷ post
  unfolding set_utxo_freeze_auto
  auto-middle c here =
      update-middle (t, v) _ _ (only_here (λ d. is_null_or_auto d.freeze_reason)) pre post c alone
        alone'
      ∙ rw here refl

  clear-middle :
      (c : Coin)
      → is_at (t, v) c ≡ true
      → clear_utxo_freeze_auto t v (pre ++ c ∷ post)
        ≡ pre
          ++ (if is_auto c.freeze_reason
              then record c { frozen = false; freeze_reason = none }
              else c)
            ∷ post
  unfolding clear_utxo_freeze_auto
  clear-middle c here =
      update-middle (t, v) _ _ (only_here (λ d. is_auto d.freeze_reason)) pre post c alone alone'
      ∙ rw here refl

  normal-middle :
      (c : Coin)
      → is_at (t, v) c ≡ true
      → normalize_unfrozen_override t v (pre ++ c ∷ post)
        ≡ pre
          ++ (if is_unfrozen c.freeze_reason then record c { freeze_reason = none } else c) ∷ post
  unfolding normalize_unfrozen_override
  normal-middle c here =
      update-middle (t, v) _ _ (only_here (λ d. is_unfrozen d.freeze_reason)) pre post c alone
        alone'
      ∙ rw here refl

  mark-table :
      (c : Coin)
      → is_at (t, v) c ≡ true
      → let table = pre ++ record c { suspected_dust = true } ∷ post in
        (if is_users (get_utxo_freeze_reason t v table)
          then table
          else set_utxo_freeze_auto t v table)
        ≡ pre ++ dusty c ∷ post
  mark-table c here =
      rw
        (
          reason-middle pre post (record c { suspected_dust = true }) t v alone here,
          auto-middle (record c { suspected_dust = true }) here,
        )
        (elim (Bool-cases (is_null_or_auto c.freeze_reason)) [
          | inl e ↦ rw e refl
          | inr e ↦ rw e refl
        ])

  clean-shape :
      (c : Coin)
      → is_at (t, v) c ≡ true
      → normalize_unfrozen_override t v
          (clear_utxo_freeze_auto t v (pre ++ record c { suspected_dust = false } ∷ post))
        ≡ pre ++ clean c ∷ post
  clean-shape c here =
      ap (normalize_unfrozen_override t v) (clear-middle (record c { suspected_dust = false }) here)
      ∙ by_reason c.freeze_reason refl
    where
      by_reason :
          (r : Option FreezeReason)
          → c.freeze_reason ≡ r
          → normalize_unfrozen_override t v (
              pre
              ++ (if is_auto c.freeze_reason
                  then record c { suspected_dust = false; frozen = false; freeze_reason = none }
                  else record c { suspected_dust = false })
                ∷ post)
            ≡ pre ++ clean c ∷ post
      by_reason none e =
          rw e (normal-middle (record c { suspected_dust = false; freeze_reason = none }) here)
      by_reason (some auto) e = rw e (
          normal-middle (record c { suspected_dust = false; frozen = false; freeze_reason = none })
            here)
      by_reason (some manual) e =
          rw e
            (normal-middle (record c { suspected_dust = false; freeze_reason = some manual }) here)
      by_reason (some manual_unfrozen) e = rw e (
          normal-middle (record c { suspected_dust = false; freeze_reason = some manual_unfrozen })
            here)

abbrev pub newly : Bool → Coin → ℕ
newly dust c = if dust && not c.suspected_dust then 1 else 0

module _ (pre post : Table) (c : Coin) (alone : any (is_at (c.txid, c.vout)) pre ≡ false)
    (alone' : any (is_at (c.txid, c.vout)) post ≡ false) where
  flagged_now :
      (if c.suspected_dust
        then pre ++ c ∷ post
        else update_utxo_dust_flag c.txid c.vout true (pre ++ c ∷ post))
      ≡ pre ++ record c { suspected_dust = true } ∷ post
  flagged_now =
      if-eq c.suspected_dust (λ e. ap (λ b. pre ++ record c { suspected_dust = b } ∷ post) e)
        (λ e. flag-middle pre post c.txid c.vout alone alone' true c (at_self c))

  cleared_now :
      (if c.suspected_dust
        then update_utxo_dust_flag c.txid c.vout false (pre ++ c ∷ post)
        else pre ++ c ∷ post)
      ≡ pre ++ record c { suspected_dust = false } ∷ post
  cleared_now =
      if-eq c.suspected_dust
        (λ e. flag-middle pre post c.txid c.vout alone alone' false c (at_self c))
        (λ e. ap (λ b. pre ++ record c { suspected_dust = b } ∷ post) e)

  counted : (n : ℕ) → (if c.suspected_dust then n else n + 1) ≡ n + newly true c
  counted n = elim (Bool-cases c.suspected_dust) [ inl e ↦ rw e (omega arith) | inr e ↦ rw e refl ]

  pub mark-middle :
      (n : ℕ) → mark_dust c (pre ++ c ∷ post, n) ≡ (pre ++ dusty c ∷ post, n + newly true c)
  unfolding mark_dust
  mark-middle n =
      rw (flagged_now, mark-table pre post c.txid c.vout alone alone' c (at_self c), counted n) refl

  pub unmark-middle :
      (n : ℕ) → unmark_dust c (pre ++ c ∷ post, n) ≡ (pre ++ clean c ∷ post, n + newly false c)
  unfolding unmark_dust
  unmark-middle n =
      let same : n ≡ n + newly false c = omega arith in
      rw (cleared_now, clean-shape pre post c.txid c.vout alone alone' c (at_self c)) (cc same)
