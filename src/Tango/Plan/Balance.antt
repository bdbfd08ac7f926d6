-- ===== src/Tango/Plan/Balance.antt =====
-- What the amounts of a planned round add up to, and that the loop of `plan` always goes through.
use si_lnt.Prelude.{
  replicate, le→ltb, ℕ, ◌+◌, ◌-◌, ◌*◌, ◌≤◌, ◌≡◌, refl, ◌⊎◌, inl, inr, arith, true, false, ltb,
  ltb→le, Bool-cases, ok,
}
use si_lnt.Floats.{Floats}
use si_lnt.TxSize.{fee_for, estimate_vsize, taproot_output_vbytes}
use si_lnt.Tango.Plan.{split_fee, Amounts, Priced, Terms, price, reprice, settle, settle_fees}
use si_lnt.Tango.Plan.Price.{
  again, shape_of, shape_of-le, again-shape_of, price-fee_mono, price-a_change, price-b_change,
  price-a_fee, price-b_fee, price-vsize, price-vsize_mono,
}

module _ (fl : Floats) (t : Terms fl) where
  -- The coins of both sides cover the amount and a share of the dearest fee.
  pub record Covers : Type 0 where
    pub a_covers : t.denom + (price fl t (2 * t.pieces + 2)).a_fee ≤ t.a_in
    pub b_covers : t.denom + (price fl t (2 * t.pieces + 2)).b_fee ≤ t.b_in

  -- A shape that is no dearer is covered too.
  Covers-smaller :
      Covers
      → (n : ℕ) → n ≤ 2 * t.pieces + 2
      → (t.denom + (price fl t n).a_fee ≤ t.a_in) × (t.denom + (price fl t n).b_fee ≤ t.b_in)
  Covers-smaller c n h =
      let cheaper = price-fee_mono fl t n (2 * t.pieces + 2) h in
      (omega (arith, c.a_covers, cheaper), omega (arith, c.b_covers, cheaper))

  -- So repricing never refuses.
  pub reprice-ok : Covers → (p : Priced fl) → reprice fl t p ≡ ok (again fl t p)
  unfolding reprice
  reprice-ok c p =
      let (a, b) = Covers-smaller c (shape_of fl t p) (shape_of-le fl t p) in ground arith

  pub first : Priced fl
  first = price fl t (2 * t.pieces + 2)

  pub last : Priced fl
  last = again fl t (again fl t first)

  pub settle_fees-ok : (share : ℕ) → Covers → settle_fees fl t share ≡ ok (settle fl t share last)
  unfolding settle_fees last first
  settle_fees-ok share c =
      rw
        (
          le→ltb _ _ c.a_covers,
          le→ltb _ _ c.b_covers,
          reprice-ok c first,
          reprice-ok c (again fl t first),
        )
        refl

  pub settle_fees-inv :
      (share : ℕ) {r : Amounts}
      → settle_fees fl t share ≡ ok r
      → Covers × (r ≡ settle fl t share last)
  unfolding settle_fees
  settle_fees-inv share {r} h = go (Bool-cases _) (Bool-cases _)
    where
      go :
          (ltb t.a_in (t.denom + (price fl t (2 * t.pieces + 2)).a_fee) ≡ true)
            ⊎ (ltb t.a_in (t.denom + (price fl t (2 * t.pieces + 2)).a_fee) ≡ false)
          → (ltb t.b_in (t.denom + (price fl t (2 * t.pieces + 2)).b_fee) ≡ true)
            ⊎ (ltb t.b_in (t.denom + (price fl t (2 * t.pieces + 2)).b_fee) ≡ false)
          → Covers × (r ≡ settle fl t share last)
      go (inl a) _ = absurd (let bad = rw a at h in cc)
      go (inr a) (inl b) = absurd (let bad = rw (a, b) at h in cc)
      go (inr a) (inr b) =
          let c : Covers = record { a_covers = ltb→le _ _ a; b_covers = ltb→le _ _ b } in
          (c, cc (settle_fees-ok share c))

  -- The last pricing is covered, and it priced at least the outputs that it leaves.
  pub last_covered : Covers → (t.denom + last.a_fee ≤ t.a_in) × (t.denom + last.b_fee ≤ t.b_in)
  unfolding last
  last_covered c = Covers-smaller c _ (shape_of-le fl t (again fl t first))

  pub last_shape : shape_of fl t last ≤ shape_of fl t (again fl t first)
  unfolding last first
  last_shape = again-shape_of fl t (2 * t.pieces + 2) (omega arith)

  pub last-a_change : last.a_change ≡ t.a_in - t.denom - last.a_fee
  unfolding last
  last-a_change = price-a_change fl t _

  pub last-b_change : last.b_change ≡ t.b_in - t.denom - last.b_fee
  unfolding last
  last-b_change = price-b_change fl t _

  pub last-a_fee : last.a_fee ≡ (split_fee (fee_for fl last.vsize t.fee_rate)).0
  unfolding last
  last-a_fee = price-a_fee fl t _

  pub last-b_fee : last.b_fee ≡ (split_fee (fee_for fl last.vsize t.fee_rate)).1
  unfolding last
  last-b_fee = price-b_fee fl t _

  -- The size that was priced is no smaller than that of the outputs which are left.
  pub last-vsize :
      estimate_vsize t.n_in (replicate (shape_of fl t last) taproot_output_vbytes) 0 ≤ last.vsize
  unfolding last first
  last-vsize = rw (← price-vsize fl t (shape_of fl t last)) (price-vsize_mono fl t _ _ last_shape)
