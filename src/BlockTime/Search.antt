-- ===== src/BlockTime/Search.antt =====
-- The bisection of helpers/blocktime.py finds the first block at or after the date.
use si_lnt.Prelude.{
  ℕ, zero, suc, ◌+◌, ◌-◌, ◌*◌, ◌/◌, ◌^◌, ◌≤◌, ◌<◌, ◌≡◌, ◌⊎◌, inl, inr, refl, arith, true, false,
  Option, some, max, le→ltb, ltb, ltb→lt, ltb→le, Bool-cases,
}
use native.Mathlib.Nat.{pow-suc, le_refl}
use si_lnt.BlockTime.{
  slack_blocks, max_search_steps, probe_height, back_off, search, finish, height_at, count_steps,
  search_steps,
}

module _ (block_time : ℕ → Option ℕ) (target : ℕ) where
  search_done : (left lo hi : ℕ) → ltb lo hi ≡ false → search block_time target left lo hi ≡ some lo
  unfolding search
  search_done zero lo hi h = rw (h, search) refl
  search_done (suc left) lo hi h = rw (h, search) refl

  search_early :
      (left lo hi t : ℕ)
      → ltb lo hi ≡ true
      → block_time (probe_height lo hi) ≡ some (suc t)
      → ltb (suc t) target ≡ true
      → search block_time target (suc left) lo hi
        ≡ search block_time target left (probe_height lo hi + 1) hi
  unfolding search
  search_early left lo hi t h r e = rw (h, search) (rw (r, search) (rw (e, search) refl))

  search_late :
      (left lo hi t : ℕ)
      → ltb lo hi ≡ true
      → block_time (probe_height lo hi) ≡ some (suc t)
      → ltb (suc t) target ≡ false
      → search block_time target (suc left) lo hi
        ≡ search block_time target left lo (probe_height lo hi)
  unfolding search
  search_late left lo hi t h r e = rw (h, search) (rw (r, search) (rw (e, search) refl))

probe_bounds : (lo hi : ℕ) → lo < hi → (lo ≤ probe_height lo hi) × (probe_height lo hi < hi)
unfolding probe_height
probe_bounds lo hi h = (omega arith, omega arith)

probe_halves : (lo hi : ℕ) → probe_height lo hi ≡ lo + (hi - lo) / 2
unfolding probe_height
probe_halves lo hi = refl

two_pow-suc : (n : ℕ) → 2 ^ suc n ≡ 2 * 2 ^ n
two_pow-suc n = rw pow-suc (grind arith)

-- The times of the blocks from `low` to `high`, all readable.
module _ (block_time : ℕ → Option ℕ) (target low high : ℕ) (time : ℕ → ℕ)
    (readable : (h : ℕ) → low ≤ h → h < high → block_time h ≡ some (suc (time h))) where
  -- What is known of the two ends of the search.
  abbrev IsAfterEarly : ℕ → Type 0
  IsAfterEarly h = (h ≡ low) ⊎ (suc (time (h - 1)) < target)

  abbrev IsLate : ℕ → Type 0
  IsLate h = (h ≡ high) ⊎ (target ≤ suc (time h))

  record Found (r : Option ℕ) : Type 0 where
    at : ℕ
    found : r ≡ some at
    from_low : low ≤ at
    to_high : at ≤ high
    after_early : IsAfterEarly at
    late : IsLate at

  search_lem :
      (left lo hi : ℕ)
      → lo ≤ hi
      → low ≤ lo
      → hi ≤ high
      → hi - lo < 2 ^ left
      → IsAfterEarly lo
      → IsLate hi
      → Found (search block_time target left lo hi)
  search_lem zero lo hi le l h fits early late =
      let same : hi ≡ lo = omega arith in
      record {
        at = lo;
        found = search_done block_time target 0 lo hi (le→ltb lo hi (omega arith));
        from_low = l;
        to_high = omega arith;
        after_early = early;
        late = rw same at late;
      }
  search_lem (suc left) lo hi le l h fits early late = elim (Bool-cases (ltb lo hi)) [
    | inr done ↦
        let same : hi ≡ lo = omega (arith, ltb→le lo hi done) in
        record {
          at = lo;
          found = search_done block_time target (suc left) lo hi done;
          from_low = l;
          to_high = omega arith;
          after_early = early;
          late = rw same at late;
        }
    | inl more ↦
        let gap = ltb→lt lo hi more in
        let (from, to) = probe_bounds lo hi gap in
        let half = probe_halves lo hi in
        let double = two_pow-suc left in
        let mid = probe_height lo hi in
        let r = readable mid (omega (arith, from)) (omega (arith, to)) in
        elim (Bool-cases (ltb (suc (time mid)) target)) [
          | inl e ↦
              let below : mid + 1 - 1 ≡ mid = omega arith in
              let f =
                search_lem left (mid + 1) hi (omega (arith, to)) (omega (arith, from)) h
                  (omega (arith, half, double)) (inr (rw below (ltb→lt _ _ e))) late in
              rw (search_early block_time target left lo hi (time mid) more r e) f
          | inr e ↦
              let f =
                search_lem left lo mid (omega (arith, from)) l (omega (arith, to))
                  (omega (arith, half, double)) early (inr (ltb→le _ _ e)) in
              rw (search_late block_time target left lo hi (time mid) more r e) f
        ]
  ]

  module _ (ordered : low ≤ high) (span : high - low < 2 ^ max_search_steps) where
    search-Found : Found (search block_time target max_search_steps low high)
    search-Found =
        search_lem max_search_steps low high ordered (le_refl low) (le_refl high) span (inl refl)
          (inl refl)

    -- Where every time can be read and the span is below 2^48, the search ends within its 48
    -- probes. What it answers is the slack below a block (but not below the range) that is the
    -- first of the range or follows one before the date, and is the last or not before the date:
    -- so also where the times are out of order.
    pub height_at_lem :
        (h : ℕ) × (height_at block_time target low high ≡ some (back_off h low))
        × (low ≤ h)
        × (h ≤ high)
        × ((h ≡ low) ⊎ (suc (time (h - 1)) < target))
        × ((h ≡ high) ⊎ (target ≤ suc (time h)))
    unfolding height_at
    height_at_lem =
        let f = search-Found in
        (
          f.at,
          rw (le→ltb high low ordered, height_at) (rw (f.found, finish) refl),
          f.from_low,
          f.to_high,
          f.after_early,
          f.late,
        )

    -- Where the times also do not fall, the answer is never late, and early by the slack at most:
    -- every block of the range below it is before the date, and every one that is twelve or more
    -- above it is not.
    pub height_at-not_late :
        (x r : ℕ)
        → ((x y : ℕ) → x ≤ y → time x ≤ time y)
        → height_at block_time target low high ≡ some r
        → low ≤ x
        → x < high
        → ((r ≤ x) ⊎ (suc (time x) < target)) × ((x < r + slack_blocks) ⊎ (target ≤ suc (time x)))
    unfolding back_off
    height_at-not_late x r sorted answer l u =
        let (h, is, from, to, early, late) = height_at_lem in
        let same : max low (h - slack_blocks) ≡ r = cc (is, answer) in
        (
          elim early [
            | inl e ↦ inl (omega (arith, same))
            | inr e ↦ elim (Bool-cases (ltb x r)) [
              | inr above ↦ inl (ltb→le x r above)
              | inl under ↦
                  inr
                    (omega (arith, e, sorted x (h - 1) (omega (arith, same, ltb→lt x r under, l))))
            ]
          ],
          elim late [
            | inl e ↦ inl (omega (arith, same))
            | inr e ↦ elim (Bool-cases (ltb x (r + slack_blocks))) [
              | inl near ↦ inl (ltb→lt _ _ near)
              | inr far ↦ inr (
                  omega
                    (arith, e, sorted h x (omega (arith, same, ltb→le x (r + slack_blocks) far))))
            ]
          ],
        )

count_steps-bound : (k fuel lo hi : ℕ) → hi - lo < 2 ^ k → count_steps fuel lo hi ≤ k
unfolding count_steps
count_steps-bound k zero lo hi h = omega arith
count_steps-bound zero (suc fuel) lo hi h =
    rw (le→ltb lo hi (omega arith), count_steps) (omega arith)
count_steps-bound (suc k) (suc fuel) lo hi h = elim (Bool-cases (ltb lo hi)) [
  | inr e ↦ rw (e, count_steps) (omega arith)
  | inl e ↦
      rw (e, count_steps)
        (omega (
          arith,
          count_steps-bound k fuel (lo + (hi - lo) / 2 + 1) hi
              (omega (arith, two_pow-suc k, ltb→lt lo hi e)),
        ))
]

-- The number of probes that is announced for a span is at most its binary logarithm, rounded up:
-- a span below 2^k takes k probes at most.
pub search_steps-le : (k low high : ℕ) → high - low < 2 ^ k → search_steps low high ≤ k
unfolding search_steps
search_steps-le k low high h = count_steps-bound k (high - low) low high h
