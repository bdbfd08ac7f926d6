-- ===== src/Coins/Dust/Loop.antt =====
-- The loop of a pass over a wallet's coins, row by row.
use si_lnt.Prelude.{
  ℕ, ◌+◌, ◌≡◌, refl, sym, ap, ◌∙◌, arith, Bool, true, false, not, ◌&&◌, List, [], ◌∷◌, ◌++◌, map,
  keep, any, sum_of, is_empty, if◌then◌else◌, Bool-cases, inl, inr,
}
use mathlib.Core.List.{append_assoc}
use si_lnt.Prelude.Text.{Text}
use si_lnt.Coins.{Coin, Table, is_at}
use si_lnt.Coins.Dust.{is_null_or_auto, Flagged, mark_dust, unmark_dust, evaluate_rows}
use si_lnt.Coins.Dust.Settled.{settle, newly, IsSolo, at_sym, mark-middle, unmark-middle}

settle-at : (b : Bool) (c : Coin) (p : Text × ℕ) → is_at p (settle b c) ≡ is_at p c
settle-at false c p = refl
settle-at true c p = elim (Bool-cases (is_null_or_auto c.freeze_reason)) [
  | inl e ↦ rw e refl
  | inr e ↦ rw e refl
]

-- No row of the second table has an outpoint of the first.
abbrev Fresh : Table → Table → Type 0
Fresh pre [] = Unit
Fresh pre (c ∷ table) = (any (is_at (c.txid, c.vout)) pre ≡ false) × Fresh pre table

any-snoc :
    (q : Coin → Bool) (pre : Table) (c : Coin)
    → any q pre ≡ false
    → q c ≡ false
    → any q (pre ++ c ∷ []) ≡ false
any-snoc q [] c h g = rw g refl
any-snoc q (d ∷ pre) c h g = elim (Bool-cases (q d)) [
  | inl e ↦ absurd (let bad = rw e at h in cc)
  | inr e ↦ rw e (any-snoc q pre c (rw e at h) g)
]

Fresh-snoc :
    (pre table : Table) (c c' : Coin)
    → ((p : Text × ℕ) → is_at p c' ≡ is_at p c)
    → Fresh pre table
    → any (is_at (c.txid, c.vout)) table ≡ false
    → Fresh (pre ++ c' ∷ []) table
Fresh-snoc pre [] c c' same fresh alone = tt
Fresh-snoc pre (d ∷ table) c c' same (first, fresh) alone =
    elim (Bool-cases (is_at (c.txid, c.vout) d)) [
      | inl e ↦ absurd (let bad = rw e at alone in cc)
      | inr e ↦ (
        any-snoc (is_at (d.txid, d.vout)) pre c' first
            (same (d.txid, d.vout) ∙ sym (at_sym c d) ∙ e),
        Fresh-snoc pre table c c' same fresh (rw e at alone),
      )
    ]

Fresh-nil : (table : Table) → Fresh [] table
Fresh-nil [] = tt
Fresh-nil (c ∷ table) = (refl, Fresh-nil table)

module _ (is_dust : Table → Coin → Bool) (p d : Coin → Bool)
    (stable : (pre post : Table) (c u : Coin) (b : Bool)
      → is_dust (pre ++ settle b c ∷ post) u ≡ is_dust (pre ++ c ∷ post) u) where
  -- What becomes of a row, and what it adds to the count.
  abbrev pub pass : Coin → Coin
  pass c = if p c && not (is_empty c.txid) then settle (d c) c else c

  abbrev pub passed : Coin → ℕ
  passed c = if p c && not (is_empty c.txid) then newly (d c) c else 0

  settled_row :
      (pre post : Table) (c : Coin) (n : ℕ) (b : Bool)
      → any (is_at (c.txid, c.vout)) pre ≡ false
      → any (is_at (c.txid, c.vout)) post ≡ false
      → (if b then mark_dust c (pre ++ c ∷ post, n) else unmark_dust c (pre ++ c ∷ post, n))
        ≡ (pre ++ settle b c ∷ post, n + newly b c)
  settled_row pre post c n true alone alone' = mark-middle pre post c alone alone' n
  settled_row pre post c n false alone alone' = unmark-middle pre post c alone alone' n

  skipped :
      (u : Coin) (rows : List Coin) (s : Flagged)
      → is_empty u.txid ≡ true
      → evaluate_rows is_dust (u ∷ rows) s ≡ evaluate_rows is_dust rows s
  unfolding evaluate_rows
  skipped u rows s e = rw e refl

  evaluated :
      (u : Coin) (rows : List Coin) (s : Flagged)
      → is_empty u.txid ≡ false
      → evaluate_rows is_dust (u ∷ rows) s
        ≡ evaluate_rows is_dust rows (if is_dust s.0 u then mark_dust u s else unmark_dust u s)
  unfolding evaluate_rows
  evaluated u rows s e = rw e refl

  -- A row that has been passed is one of those in front.
  carry :
      (table pre : Table) (c' : Coin) (m k n : ℕ)
      → n + k ≡ m
      → evaluate_rows is_dust (keep p table) ((pre ++ c' ∷ []) ++ table, m)
        ≡ ((pre ++ c' ∷ []) ++ map pass table, m + sum_of passed table)
      → evaluate_rows is_dust (keep p table) (pre ++ c' ∷ table, m)
        ≡ (pre ++ c' ∷ map pass table, n + (k + sum_of passed table))
  carry table pre c' m k n e h =
      let start = append_assoc pre (c' ∷ []) table in
      let end = append_assoc pre (c' ∷ []) (map pass table) in
      let count : m + sum_of passed table ≡ n + (k + sum_of passed table) = omega (arith, e) in
      ap (λ t. evaluate_rows is_dust (keep p table) (t, m)) (sym start) ∙ h ∙ cc (end, count)

  nothing_left : (table : Table) (n : ℕ) → evaluate_rows is_dust [] (table, n) ≡ (table, n + 0)
  unfolding evaluate_rows
  nothing_left table n = let same : n ≡ n + 0 = omega arith in cc same

  loop :
      (table pre : Table) (n : ℕ)
      → Fresh pre table
      → IsSolo table
      → ((u : Coin) → is_dust (pre ++ table) u ≡ d u)
      → evaluate_rows is_dust (keep p table) (pre ++ table, n)
        ≡ (pre ++ map pass table, n + sum_of passed table)
  loop [] pre n fresh solo fixed = nothing_left (pre ++ []) n
  loop (c ∷ table) pre n (first, fresh) (alone, solo) fixed =
      let left = carry table pre c n 0 n (omega arith) (
        loop table (pre ++ c ∷ []) n (Fresh-snoc pre table c c (λ p. refl) fresh alone) solo
          (λ u. ap (λ t. is_dust t u) (append_assoc pre (c ∷ []) table) ∙ fixed u)) in
      let c' = settle (d c) c in
      let m = n + newly (d c) c in
      let taken = carry table pre c' m (newly (d c) c) n refl (
        loop table (pre ++ c' ∷ []) m (Fresh-snoc pre table c c' (settle-at (d c) c) fresh alone)
          solo
          (λ u.
            ap (λ t. is_dust t u) (append_assoc pre (c' ∷ []) table)
            ∙ stable pre table c u (d c)
            ∙ fixed u)) in
      elim (Bool-cases (p c)) [
        | inr e ↦ rw e left
        | inl e ↦ elim (Bool-cases (is_empty c.txid)) [
          | inl e' ↦ rw (e, e') (skipped c (keep p table) (pre ++ c ∷ table, n) e' ∙ left)
          | inr e' ↦
              rw (e, e')
                (evaluated c (keep p table) (pre ++ c ∷ table, n) e'
                  ∙ ap (evaluate_rows is_dust (keep p table)) (
                      ap
                        (λ b.
                          if b
                          then mark_dust c (pre ++ c ∷ table, n)
                          else unmark_dust c (pre ++ c ∷ table, n))
                        (fixed c)
                      ∙ settled_row pre table c n (d c) first alone)
                  ∙ taken)
        ]
      ]

  pub evaluate_rows-pass :
      (table : Table)
      → IsSolo table
      → ((u : Coin) → is_dust table u ≡ d u)
      → evaluate_rows is_dust (keep p table) (table, 0) ≡ (map pass table, sum_of passed table)
  evaluate_rows-pass table solo fixed =
      let zero_first : 0 + sum_of passed table ≡ sum_of passed table = omega arith in
      loop table [] 0 (Fresh-nil table) solo fixed ∙ cc zero_first
