-- ===== src/Tango/Plan/Price.antt =====
-- One pricing of a round: what its fees are, and that a smaller shape is never dearer.
use si_lnt.Prelude.{ℕ, ◌+◌, ◌-◌, ◌*◌, ◌≤◌, ◌≡◌, refl, arith, replicate, sum-replicate}
use si_lnt.Floats.{Floats}
use si_lnt.TxSize.{estimate_vsize, fee_for, taproot_output_vbytes}
use si_lnt.TxSize.Weight.{estimate_vsize_mono, fee_for_mono}
use si_lnt.Tango.Plan.{split_fee, Terms, Priced, price, kept, estimate}

pub split_fee-sum : (fee : ℕ) → (split_fee fee).0 + (split_fee fee).1 ≡ fee
unfolding split_fee
split_fee-sum fee = omega arith

pub split_fee_mono :
    (m n : ℕ) → m ≤ n → ((split_fee m).0 ≤ (split_fee n).0) × ((split_fee m).1 ≤ (split_fee n).1)
unfolding split_fee
split_fee_mono m n h = omega arith

module _ (fl : Floats) (t : Terms fl) where
  shape_vsize : ℕ → ℕ
  shape_vsize n_out = estimate_vsize t.n_in (replicate n_out taproot_output_vbytes) 0

  shape_vsize_mono : (m n : ℕ) → m ≤ n → shape_vsize m ≤ shape_vsize n
  unfolding shape_vsize
  shape_vsize_mono m n h =
      estimate_vsize_mono t.n_in (replicate m taproot_output_vbytes)
        (replicate n taproot_output_vbytes) 0
        (omega
          (arith, sum-replicate m taproot_output_vbytes, sum-replicate n taproot_output_vbytes))

  pub price-vsize :
      (n : ℕ) → (price fl t n).vsize ≡ estimate_vsize t.n_in (replicate n taproot_output_vbytes) 0
  unfolding price
  price-vsize n = refl

  pub price-a_fee :
      (n : ℕ) → (price fl t n).a_fee ≡ (split_fee (fee_for fl (price fl t n).vsize t.fee_rate)).0
  unfolding price
  price-a_fee n = refl

  pub price-b_fee :
      (n : ℕ) → (price fl t n).b_fee ≡ (split_fee (fee_for fl (price fl t n).vsize t.fee_rate)).1
  unfolding price
  price-b_fee n = refl

  pub price-fees :
      (n : ℕ)
      → (price fl t n).a_fee + (price fl t n).b_fee ≡ fee_for fl (price fl t n).vsize t.fee_rate
  price-fees n = omega (
    arith,
    price-a_fee n,
    price-b_fee n,
    split_fee-sum (fee_for fl (price fl t n).vsize t.fee_rate),
  )

  pub price-a_change : (n : ℕ) → (price fl t n).a_change ≡ t.a_in - t.denom - (price fl t n).a_fee
  unfolding price
  price-a_change n = refl

  pub price-b_change : (n : ℕ) → (price fl t n).b_change ≡ t.b_in - t.denom - (price fl t n).b_fee
  unfolding price
  price-b_change n = refl

  pub price-vsize_mono : (m n : ℕ) → m ≤ n → (price fl t m).vsize ≤ (price fl t n).vsize
  unfolding price estimate
  price-vsize_mono m n h = unfold shape_vsize in shape_vsize_mono m n h

  pub price-fee_mono :
      (m n : ℕ)
      → m ≤ n
      → ((price fl t m).a_fee ≤ (price fl t n).a_fee)
        × ((price fl t m).b_fee ≤ (price fl t n).b_fee)
  price-fee_mono m n h =
      let dearer = split_fee_mono _ _ (fee_for_mono fl t.fee_rate _ _ (price-vsize_mono m n h)) in
      (
        omega (arith, dearer, price-a_fee m, price-a_fee n),
        omega (arith, dearer, price-b_fee m, price-b_fee n),
      )

  -- The outputs that a pricing's changes call for, and the pricing of that shape.
  abbrev pub shape_of : Priced fl → ℕ
  shape_of p = 2 * t.pieces + kept fl p.a_change + kept fl p.b_change

  abbrev pub again : Priced fl → Priced fl
  again p = price fl t (shape_of p)

  pub shape_of-le : (p : Priced fl) → shape_of p ≤ 2 * t.pieces + 2
  shape_of-le p = ground arith

  -- A dearer shape leaves no more change, and less change calls for no more outputs.
  pub price-change_mono :
      (m n : ℕ)
      → m ≤ n
      → ((price fl t n).a_change ≤ (price fl t m).a_change)
        × ((price fl t n).b_change ≤ (price fl t m).b_change)
  price-change_mono m n h =
      let dearer = price-fee_mono m n h in
      (
        omega (arith, dearer, price-a_change m, price-a_change n),
        omega (arith, dearer, price-b_change m, price-b_change n),
      )

  pub shape_of_mono :
      (p q : Priced fl)
      → p.a_change ≤ q.a_change
      → p.b_change ≤ q.b_change
      → shape_of p ≤ shape_of q
  shape_of_mono p q a b = ground arith

  -- Pricing a shape of at least the outputs that it then leaves, twice over.
  pub again-shape_of :
      (m : ℕ)
      → 2 * t.pieces + 2 ≤ m
      → shape_of (again (again (price fl t m))) ≤ shape_of (again (price fl t m))
  again-shape_of m h =
      let p = price fl t m in
      let up = price-change_mono (shape_of p) m (omega (arith, shape_of-le p)) in
      let wider = shape_of_mono p (again p) up.0 up.1 in
      let down = price-change_mono (shape_of p) (shape_of (again p)) wider in
      shape_of_mono (again (again p)) (again p) down.0 down.1
