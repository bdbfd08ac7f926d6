-- ===== src/Prelude/Order.antt =====
-- Sorting by a strict linear order: the result does not depend on the order of the list.
use Prim.Native.Nat.{ℕ}
use mathlib.Core.Path.{◌≡◌, refl, sym, ap, ◌∙◌}
use mathlib.Core.Bool.{Bool, true, false, ◌&&◌, ◌||◌}
use mathlib.Core.List.{List, [], ◌∷◌, ◌++◌, append-nil}
use mathlib.Core.Logic.{inl, inr}
use native.Mathlib.Omega.{arith}
use si_lnt.Prelude.Tests.{if◌then◌else◌, Bool-cases, ltb, ◌==◌}
use si_lnt.Prelude.Text.{Text, text_eq, text_eq→≡}
use si_lnt.Prelude.Sort.{insert, sort}

pub record IsLinear {ℓ} {A : Type ℓ} (before : A → A → Bool) : Type ℓ where
  pub asym : (x y : A) → before x y ≡ true → before y x ≡ false
  pub tri : (x y : A) → before x y ≡ false → before y x ≡ false → x ≡ y
  pub between : (x y z : A) → before z x ≡ true → before z y ≡ false → before y x ≡ true

module _ {ℓ} {A : Type ℓ} (before : A → A → Bool) (lin : IsLinear before) where
  insert_pair : (x y : A) → insert before x (y ∷ []) ≡ insert before y (x ∷ [])
  unfolding insert
  insert_pair x y = elim (Bool-cases (before y x)) [
    | inl e ↦ rw (e, lin.asym y x e) refl
    | inr e ↦ elim (Bool-cases (before x y)) [
      | inl e' ↦ rw (e, e') refl
      | inr e' ↦ rw (lin.tri x y e' e) refl
    ]
  ]

  insert_front :
      (x y : A) (zs : List A)
      → (if before y x then y ∷ x ∷ zs else x ∷ y ∷ zs)
        ≡ (if before x y then x ∷ y ∷ zs else y ∷ x ∷ zs)
  insert_front x y zs = elim (Bool-cases (before y x)) [
    | inl e ↦ rw (e, lin.asym y x e) refl
    | inr e ↦ elim (Bool-cases (before x y)) [
      | inl e' ↦ rw (e, e') refl
      | inr e' ↦ rw (lin.tri x y e' e) refl
    ]
  ]

  insert_comm :
      (x y : A) (zs : List A)
      → insert before x (insert before y zs) ≡ insert before y (insert before x zs)
  unfolding insert
  insert_comm x y [] = insert_pair x y
  insert_comm x y (z ∷ zs) = elim (Bool-cases (before z x)) [
    | inl zx ↦ elim (Bool-cases (before z y)) [
      | inl zy ↦ rw (zx, zy) (rw zx (ap (λ l. z ∷ l) (insert_comm x y zs)))
      | inr zy ↦ let yx = lin.between x y z zx zy in rw (zx, zy) (rw (yx, zx) refl)
    ]
    | inr zx ↦ elim (Bool-cases (before z y)) [
      | inl zy ↦ let xy = lin.between y x z zy zx in rw (zx, zy) (rw (xy, zx) refl)
      | inr zy ↦ rw (zx, zy) (rw zx (insert_front x y (z ∷ zs)))
    ]
  ]

  -- An element may stand anywhere.
  sort_middle :
      (xs : List A) (y : A) (ys : List A)
      → sort before (xs ++ y ∷ ys) ≡ insert before y (sort before (xs ++ ys))
  unfolding sort
  sort_middle [] y ys = refl
  sort_middle (x ∷ xs) y ys =
      ap (insert before x) (sort_middle xs y ys) ∙ insert_comm x y (sort before (xs ++ ys))

  pub sort_swap : (xs ys : List A) → sort before (xs ++ ys) ≡ sort before (ys ++ xs)
  unfolding sort
  sort_swap [] ys = ap (sort before) (sym (append-nil ys))
  sort_swap (x ∷ xs) ys = ap (insert before x) (sort_swap xs ys) ∙ sym (sort_middle ys x xs)

  sort_tail :
      (xs ys ys' : List A)
      → sort before ys ≡ sort before ys'
      → sort before (xs ++ ys) ≡ sort before (xs ++ ys')
  unfolding sort
  sort_tail [] ys ys' h = h
  sort_tail (x ∷ xs) ys ys' h = ap (insert before x) (sort_tail xs ys ys' h)

  -- Lists that sort alike may stand for one another in a longer one.
  pub sort_parts :
      (xs xs' ys ys' : List A)
      → sort before xs ≡ sort before xs'
      → sort before ys ≡ sort before ys'
      → sort before (xs ++ ys) ≡ sort before (xs' ++ ys')
  sort_parts xs xs' ys ys' hx hy =
      sort_tail xs ys ys' hy ∙ sort_swap xs ys' ∙ sort_tail ys' xs xs' hx ∙ sort_swap ys' xs'

-- `a < b` of two strings of bytes or code points.
abbrev pub text_lt : Text → Text → Bool
text_lt [] [] = false
text_lt [] (_ ∷ _) = true
text_lt (_ ∷ _) [] = false
text_lt (c ∷ s) (d ∷ t) = ltb c d || (c == d && text_lt s t)

text_lt_asym : (s t : Text) → text_lt s t ≡ true → text_lt t s ≡ false
text_lt_asym [] [] h = refl
text_lt_asym [] (d ∷ t) h = refl
text_lt_asym (c ∷ s) [] h = cc
text_lt_asym (c ∷ s) (d ∷ t) h = ground (arith, h, text_lt_asym s t)

text_lt_tri : (s t : Text) → text_lt s t ≡ false → text_lt t s ≡ false → s ≡ t
text_lt_tri [] [] h h' = refl
text_lt_tri [] (d ∷ t) h h' = cc
text_lt_tri (c ∷ s) [] h h' = cc
text_lt_tri (c ∷ s) (d ∷ t) h h' =
    let head : c ≡ d = ground (arith, h, h') in
    let tail : s ≡ t = text_lt_tri s t (ground (arith, h, h')) (ground (arith, h, h')) in
    cc (head, tail)

text_lt_between : (s t u : Text) → text_lt u s ≡ true → text_lt u t ≡ false → text_lt t s ≡ true
text_lt_between (c ∷ s) [] u h h' = refl
text_lt_between [] t [] h h' = cc
text_lt_between [] t (e ∷ u) h h' = cc
text_lt_between (c ∷ s) (d ∷ t) [] h h' = cc
text_lt_between (c ∷ s) (d ∷ t) (e ∷ u) h h' = ground (arith, h, h', text_lt_between s t u)

pub text_lt-IsLinear : IsLinear text_lt
text_lt-IsLinear = record { asym = text_lt_asym; tri = text_lt_tri; between = text_lt_between }

pub text_eq_sym : (s t : Text) → text_eq s t ≡ text_eq t s
text_eq_sym [] [] = refl
text_eq_sym [] (d ∷ t) = refl
text_eq_sym (c ∷ s) [] = refl
text_eq_sym (c ∷ s) (d ∷ t) = ground (arith, text_eq_sym s t)

text_lt_irrefl : (s : Text) → text_lt s s ≡ false
text_lt_irrefl [] = refl
text_lt_irrefl (c ∷ s) = ground (arith, text_lt_irrefl s)

text_lt_total : (s t : Text) → text_eq s t ≡ false → text_lt s t ≡ false → text_lt t s ≡ true
text_lt_total [] [] h h' = cc
text_lt_total [] (d ∷ t) h h' = cc
text_lt_total (c ∷ s) [] h h' = refl
text_lt_total (c ∷ s) (d ∷ t) h h' = ground (arith, h, h', text_lt_total s t)

-- `a < b` of two tuples: the first that differs decides.
abbrev pub pair_lt : Text × ℕ → Text × ℕ → Bool
pair_lt (s, m) (t, n) = if text_eq s t then ltb m n else text_lt s t

pair_lt_tri : (x y : Text × ℕ) → pair_lt x y ≡ false → pair_lt y x ≡ false → x ≡ y
pair_lt_tri (s, m) (t, n) h h' = elim (Bool-cases (text_eq s t)) [
  | inl e ↦
      let same : s ≡ t = text_eq→≡ s t e in
      let at : m ≡ n = ground (arith, h, h', e, text_eq_sym s t) in cc (same, at)
  | inr e ↦ absurd (ground (arith, h, h', e, text_eq_sym s t, text_lt_total s t))
]

pair_lt_between : (x y z : Text × ℕ) → pair_lt z x ≡ true → pair_lt z y ≡ false → pair_lt y x ≡ true
pair_lt_between (s, m) (t, n) (u, k) h h' = elim (Bool-cases (text_eq u t)) [
  | inl e ↦ let same : u ≡ t = text_eq→≡ u t e in let g = rw same at h in ground (arith, g, h', e)
  | inr e ↦ elim (Bool-cases (text_eq u s)) [
    | inl e' ↦
        let same : u ≡ s = text_eq→≡ u s e' in
        let g = rw same at h' in
        let d = rw same at e in ground (arith, g, d, text_eq_sym s t, text_lt_total s t)
    | inr e' ↦
        let after : text_lt t s ≡ true =
          text_lt-IsLinear.between s t u (ground (arith, h, e')) (ground (arith, h', e)) in
        elim (Bool-cases (text_eq t s)) [
          | inl same ↦
              let here = rw (text_eq→≡ t s same) at after in
              absurd (ground (arith, here, text_lt_irrefl s))
          | inr other ↦ rw other after
        ]
  ]
]

pub pair_lt-IsLinear : IsLinear pair_lt
pair_lt-IsLinear = record {
  asym = λ (s, m) (t, n) h. ground (arith, h, text_eq_sym s t, text_lt_asym s t);
  tri = pair_lt_tri;
  between = pair_lt_between;
}
