-- ===== src/Payout/Threshold.antt =====
-- `min_change_to_route` of helpers/tangopayout.py finds the least change that is paid out.
use si_lnt.Prelude.{
  ℕ, zero, suc, ◌+◌, ◌-◌, ◌*◌, ◌^◌, ◌≤◌, ◌≡◌, ◌∙◌, sym, inl, inr, refl, arith, true, false, Option,
  none, some, max, Bool-cases,
}
use native.Mathlib.Nat.{pow-suc}
use si_lnt.Prelude.Int.{ℤ, pos_part}
use si_lnt.Floats.{Floats}
use si_lnt.Tango.Plan.{dust_sats}
use si_lnt.Payout.Plan.{routes, double, finish, min_change_to_route}
use si_lnt.Payout.Plan.Rule.{routes_iff, routes_suc, payout_fee-ge}

module _ (fl : Floats) (pct : fl.Rate) (floor : ℤ) (below : fl.lt_one pct ≡ true) where
  routes-add : (k c : ℕ) → routes fl pct floor c ≡ true → routes fl pct floor (c + k) ≡ true
  routes-add zero c h = let e : c + 0 ≡ c = omega arith in rw e h
  routes-add (suc k) c h =
      let e : c + suc k ≡ c + k + 1 = omega arith in
      rw e (routes_suc fl pct floor (c + k) below (routes-add k c h))

  -- A change larger than one that is routed is routed too.
  pub routes_mono : (c d : ℕ) → c ≤ d → routes fl pct floor c ≡ true → routes fl pct floor d ≡ true
  routes_mono c d h r = let e : d ≡ c + (d - c) = omega arith in rw e (routes-add (d - c) c r)

  not_below : (c d : ℕ) → c ≤ d → routes fl pct floor d ≡ false → routes fl pct floor c ≡ false
  not_below c d h r = elim (Bool-cases (routes fl pct floor c)) [
    | inl e ↦ absurd (let bad = routes_mono c d h e in cc)
    | inr e ↦ e
  ]

  double_found :
      (rounds lo hi : ℕ)
      → routes fl pct floor hi ≡ true
      → double fl pct floor (suc rounds) lo hi ≡ some (lo, hi)
  unfolding double
  double_found rounds lo hi h = rw (h, double) refl

  double_next :
      (rounds lo hi : ℕ)
      → routes fl pct floor hi ≡ false
      → double fl pct floor (suc rounds) lo hi ≡ double fl pct floor rounds hi (hi * 2)
  unfolding double
  double_next rounds lo hi h = rw (h, double) refl

  double-none :
      (rounds lo hi : ℕ)
      → double fl pct floor (suc rounds) lo hi ≡ none
      → routes fl pct floor (hi * 2 ^ rounds) ≡ false
  double-none zero lo hi d = elim (Bool-cases (routes fl pct floor hi)) [
    | inl e ↦ absurd (let bad = sym (double_found 0 lo hi e) ∙ d in cc)
    | inr e ↦ let one : hi * 2 ^ 0 ≡ hi = omega arith in rw one e
  ]
  double-none (suc rounds) lo hi d = elim (Bool-cases (routes fl pct floor hi)) [
    | inl e ↦ absurd (let bad = sym (double_found (suc rounds) lo hi e) ∙ d in cc)
    | inr e ↦
        let more : hi * 2 ^ suc rounds ≡ hi * 2 * 2 ^ rounds = rw pow-suc (grind arith) in
        rw more (double-none rounds hi (hi * 2) (sym (double_next (suc rounds) lo hi e) ∙ d))
  ]

  finish-none :
      (lo hi : ℕ) (o : Option (ℕ × ℕ))
      → double fl pct floor 64 lo hi ≡ o
      → finish fl pct floor o ≡ none
      → routes fl pct floor (hi * 2 ^ 63) ≡ false
  unfolding finish
  finish-none lo hi none d h = double-none 63 lo hi d
  finish-none lo hi (some (l, u)) d h = cc

-- A percentage of 100 or more pays nothing out.
all_out :
    (fl : Floats) (pct : fl.Rate) (floor : ℤ) (c : ℕ)
    → fl.lt_one pct ≡ false
    → routes fl pct floor c ≡ false
all_out fl pct floor c h = elim (Bool-cases (routes fl pct floor c)) [
  | inl e ↦ absurd (
      omega (
        arith,
        (routes_iff fl pct floor c).0 e,
        fl.ceil_mul_ge pct c h,
        (payout_fee-ge fl pct c (pos_part floor)).0,
      ))
  | inr e ↦ e
]

-- Where no threshold is stated, no change is paid out up to 2^63 times the first one tried above
-- dust.
pub min_change_to_route-none :
    (fl : Floats) (pct : fl.Rate) (floor : ℤ) (c : ℕ)
    → min_change_to_route fl pct floor ≡ none
    → c ≤ (dust_sats + max 1 (pos_part floor)) * 2 ^ 63
    → routes fl pct floor c ≡ false
unfolding min_change_to_route
min_change_to_route-none fl pct floor c h bound = elim (Bool-cases (fl.lt_one pct)) [
  | inr over ↦ all_out fl pct floor c over
  | inl below ↦ elim (Bool-cases (routes fl pct floor dust_sats)) [
    | inl at ↦ absurd (let bad = rw (below, at) at h in cc)
    | inr out ↦ not_below fl pct floor below c _ bound (
        finish-none fl pct floor below dust_sats (dust_sats + max 1 (pos_part floor)) _ refl
          (rw (below, out) at h))
  ]
]
