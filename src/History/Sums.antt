-- ===== src/History/Sums.antt =====
-- The amounts of the transactions against the coins that they are made of.
use si_lnt.Prelude.{
  ℕ, ◌+◌, ◌≡◌, refl, sym, ap, ◌∙◌, arith, Bool, true, false, not, ◌&&◌, ◌||◌, List, [], ◌∷◌, ◌++◌,
  map, any, keep, sum_of, if◌then◌else◌, Bool-cases, and-true, not-true, inl, inr,
}
use si_lnt.Prelude.Text.{Text, text_eq, text_eq→≡, text_eq_refl}
use si_lnt.Labels.Undo.{set_of}

-- Without a text twice.
abbrev pub is_distinct : List Text → Bool
is_distinct [] = true
is_distinct (t ∷ ts) = not (any (text_eq t) ts) && is_distinct ts

pub set_of-distinct : (ts : List Text) → is_distinct (set_of ts) ≡ true
set_of-distinct [] = refl
set_of-distinct (t ∷ ts) = elim (Bool-cases (any (text_eq t) (set_of ts))) [
  | inl e ↦ rw e (set_of-distinct ts)
  | inr e ↦ rw (e, e) (set_of-distinct ts)
]

any-same :
    (k t : Text) (ts : List Text) → text_eq k t ≡ true → any (text_eq t) ts ≡ any (text_eq k) ts
any-same k t ts e = ap (λ u. any (text_eq u) ts) (sym (text_eq→≡ k t e))

pub any-set_of : (k : Text) (ts : List Text) → any (text_eq k) (set_of ts) ≡ any (text_eq k) ts
any-set_of k [] = refl
any-set_of k (t ∷ ts) = elim (Bool-cases (any (text_eq t) (set_of ts))) [
  | inr e ↦ rw (e, any-set_of k ts) refl
  | inl e ↦ elim (Bool-cases (text_eq k t)) [
    | inr e' ↦ rw (e, e', any-set_of k ts) refl
    | inl e' ↦ rw (e, e') (sym (any-same k t (set_of ts) e') ∙ e)
  ]
]

pub any-append :
    (k : Text) (ss ts : List Text)
    → any (text_eq k) (ss ++ ts) ≡ (any (text_eq k) ss || any (text_eq k) ts)
any-append k [] ts = refl
any-append k (s ∷ ss) ts = elim (Bool-cases (text_eq k s)) [
  | inl e ↦ rw e refl
  | inr e ↦ rw e (any-append k ss ts)
]

abbrev at : Text → ℕ → Text → ℕ
at k a t = if text_eq k t then a else 0

at-none : (k : Text) (a : ℕ) (ts : List Text) → any (text_eq k) ts ≡ false → sum_of (at k a) ts ≡ 0
at-none k a [] h = refl
at-none k a (t ∷ ts) h = elim (Bool-cases (text_eq k t)) [
  | inl e ↦ absurd (let bad = rw e at h in cc)
  | inr e ↦ rw e (omega (arith, at-none k a ts (rw e at h)))
]

-- Of texts without repetition, one is a given one.
at-once :
    (k : Text) (a : ℕ) (ts : List Text)
    → is_distinct ts ≡ true
    → any (text_eq k) ts ≡ true
    → sum_of (at k a) ts ≡ a
at-once k a [] d h = absurd (let bad = h in cc)
at-once k a (t ∷ ts) d h =
    let (new, rest) = and-true _ _ d in
    elim (Bool-cases (text_eq k t)) [
      | inl e ↦
          let none_more = at-none k a ts (sym (any-same k t ts e) ∙ not-true _ new) in
          rw e (omega (arith, none_more))
      | inr e ↦ rw e (omega (arith, at-once k a ts rest (rw e at h)))
    ]

module _ {A : Type 0} (key : A → Text) (amount : A → ℕ) where
  -- What a group is worth.
  abbrev pub worth : List A → Text → ℕ
  worth xs t = sum_of amount (keep (λ x. text_eq (key x) t) xs)

  worth-cons :
      (x : A) (xs : List A) (t : Text) → worth (x ∷ xs) t ≡ at (key x) (amount x) t + worth xs t
  worth-cons x xs t = ground arith

  worths-cons :
      (x : A) (xs : List A) (ts : List Text)
      → sum_of (worth (x ∷ xs)) ts ≡ sum_of (at (key x) (amount x)) ts + sum_of (worth xs) ts
  worths-cons x xs [] = refl
  worths-cons x xs (t ∷ ts) = omega (arith, worth-cons x xs t, worths-cons x xs ts)

  worths-none : (ts : List Text) → sum_of (worth []) ts ≡ 0
  worths-none [] = refl
  worths-none (t ∷ ts) = omega (arith, worths-none ts)

  -- The groups are worth what the list is, where each key has a group.
  pub worths_all :
      (ts : List Text) (xs : List A)
      → is_distinct ts ≡ true
      → ((k : Text) → any (text_eq k) (map key xs) ≡ true → any (text_eq k) ts ≡ true)
      → sum_of (worth xs) ts ≡ sum_of amount xs
  worths_all ts [] d h = worths-none ts
  worths_all ts (x ∷ xs) d h =
      let one = at-once (key x) (amount x) ts d (h (key x) (rw (text_eq_refl (key x)) refl)) in
      let more = worths_all ts xs d (λ k e.
        h k (elim (Bool-cases (text_eq k (key x))) [ inl e' ↦ rw e' refl | inr e' ↦ rw e' e ])) in
      omega (arith, worths-cons x xs ts, one, more)

  -- A key that no element has is worth nothing.
  pub worth-none : (xs : List A) (t : Text) → any (text_eq t) (map key xs) ≡ false → worth xs t ≡ 0
  worth-none [] t h = refl
  worth-none (x ∷ xs) t h = elim (Bool-cases (text_eq (key x) t)) [
    | inl e ↦ absurd (
        let same = text_eq→≡ (key x) t e in
        let bad = rw (sym same, text_eq_refl (key x)) at h in cc)
    | inr e ↦ elim (Bool-cases (text_eq t (key x))) [
      | inl e' ↦ absurd (let bad = rw e' at h in cc)
      | inr e' ↦ rw e (worth-none xs t (rw e' at h))
    ]
  ]
