-- ===== src/Prelude/Find.antt =====
-- Texts inside texts, and what blanks at the ends do to a text that is put together.
use Prim.Native.Nat.{ℕ, zero, suc}
use mathlib.Core.Path.{◌≡◌, refl, sym, ap, ◌∙◌, subst}
use mathlib.Core.Bool.{Bool, true, false, not, ◌&&◌, ◌||◌}
use mathlib.Core.List.{List, [], ◌∷◌, ◌++◌, map}
use native.Mathlib.Omega.{arith}
use mathlib.Core.Logic.{inl, inr}
use si_lnt.Prelude.Tests.{if◌then◌else◌, Bool-cases}
use si_lnt.Prelude.Text.{Text, is_space, lower_char, lower, lstrip, rstrip, strip, starts_with}

-- `s[n:]`
abbrev pub drop {ℓ} : {A : Type ℓ} → ℕ → List A → List A
drop zero s = s
drop (suc n) [] = []
drop (suc n) (c ∷ s) = drop n s

-- `part in s`
abbrev pub has_text : Text → Text → Bool
has_text part [] = starts_with [] part
has_text part (c ∷ s) = starts_with (c ∷ s) part || has_text part s

-- `s[: s.rindex(part)]`, where it is in `s`.
abbrev pub before_last_text : Text → Text → Text
before_last_text part [] = []
before_last_text part (c ∷ s) =
    let rest = before_last_text part s in
    if starts_with (c ∷ s) part && not (has_text part s) then [] else c ∷ rest

has_text-append :
    (part s : Text) (c : ℕ) (t : Text)
    → starts_with (c ∷ t) part ≡ true
    → has_text part (s ++ c ∷ t) ≡ true
has_text-append part [] c t h = rw h refl
has_text-append part (d ∷ s) c t h = ground (arith, has_text-append part s c t h)

-- The last place is the one behind which there is none.
pub before_last_text-append :
    (part s : Text) (c : ℕ) (t : Text)
    → starts_with (c ∷ t) part ≡ true
    → has_text part t ≡ false
    → (has_text part (s ++ c ∷ t) ≡ true) × (before_last_text part (s ++ c ∷ t) ≡ s)
before_last_text-append part [] c t h last = (rw h refl, rw (h, last) refl)
before_last_text-append part (d ∷ s) c t h last =
    let there = has_text-append part s c t h in
    let (_, same) = before_last_text-append part s c t h last in ground (arith, there, same)

-- A text that does not end in a blank does not when it stands behind another.
pub rstrip-append :
    (s : Text) (c : ℕ) (t : Text) → rstrip (c ∷ t) ≡ c ∷ t → rstrip (s ++ c ∷ t) ≡ s ++ c ∷ t
unfolding rstrip
rstrip-append [] c t h = h
rstrip-append (d ∷ []) c t h = rw h refl
rstrip-append (d ∷ e ∷ s) c t h = rw (rstrip-append (e ∷ s) c t h) refl

rstrip-cons :
    (c : ℕ) (r : Text)
    → rstrip r ≡ r
    → (b : Text) → b ≡ (elim r [ [] ↦ if is_space c then [] else c ∷ [] | d ∷ t ↦ c ∷ d ∷ t ])
    → rstrip b ≡ b
unfolding rstrip
rstrip-cons c [] h b e = elim (Bool-cases (is_space c)) [
  | inl blank ↦ let done = rw blank at e in rw done refl
  | inr dark ↦ let done = rw dark at e in rw done (rw dark refl)
]
rstrip-cons c (d ∷ t) h b e = rw e (rw h refl)

rstrip_idem : (s : Text) → rstrip (rstrip s) ≡ rstrip s
unfolding rstrip
rstrip_idem [] = refl
rstrip_idem (c ∷ s) = rstrip-cons c (rstrip s) (rstrip_idem s) (rstrip (c ∷ s)) refl

-- A text with nothing to strip: it is empty, or neither begins nor ends in a blank.
abbrev pub IsStripped : Text → Type 0
IsStripped [] = Unit
IsStripped (c ∷ s) = (is_space c ≡ false) × (rstrip (c ∷ s) ≡ c ∷ s)

lstrip_dark : (c : ℕ) (s : Text) → is_space c ≡ false → lstrip (c ∷ s) ≡ c ∷ s
unfolding lstrip
lstrip_dark c s dark = rw (dark, lstrip) refl

lstrip_blank : (c : ℕ) (s : Text) → is_space c ≡ true → lstrip (c ∷ s) ≡ lstrip s
unfolding lstrip
lstrip_blank c s blank = rw (blank, lstrip) refl

pub strip-eq : (s : Text) → IsStripped s → strip s ≡ s
unfolding strip
strip-eq [] h = refl
strip-eq (c ∷ s) (dark, h) = ap rstrip (lstrip_dark c s dark) ∙ h

rstrip_dark : (c : ℕ) (s : Text) → is_space c ≡ false → IsStripped (rstrip (c ∷ s))
unfolding rstrip
rstrip_dark c s dark =
    let again = rstrip_idem (c ∷ s) in
    elim (rstrip s)
        as (λ r.
          rstrip (elim r [ [] ↦ if is_space c then [] else c ∷ [] | d ∷ t ↦ c ∷ d ∷ t ])
            ≡ elim r [ [] ↦ if is_space c then [] else c ∷ [] | d ∷ t ↦ c ∷ d ∷ t ]
          → IsStripped (elim r [ [] ↦ if is_space c then [] else c ∷ [] | d ∷ t ↦ c ∷ d ∷ t ])) [
            | [] ↦ λ e. rw dark (dark, rw dark refl)
            | d ∷ t ↦ λ e. (dark, e)
          ]
      again

rstrip-lstrip : (s : Text) → IsStripped (rstrip (lstrip s))
unfolding lstrip rstrip
rstrip-lstrip [] = tt
rstrip-lstrip (c ∷ s) = elim (Bool-cases (is_space c)) [
  | inl blank ↦ subst (λ t. IsStripped (rstrip t)) (sym (lstrip_blank c s blank)) (rstrip-lstrip s)
  | inr dark ↦
      subst (λ t. IsStripped (rstrip t)) (sym (lstrip_dark c s dark)) (rstrip_dark c s dark)
]

pub strip-IsStripped : (s : Text) → IsStripped (strip s)
unfolding strip
strip-IsStripped s = rstrip-lstrip s

lower_char-space : (c : ℕ) → is_space (lower_char c) ≡ is_space c
unfolding is_space lower_char
lower_char-space c = ground arith

lower_char_idem : (c : ℕ) → lower_char (lower_char c) ≡ lower_char c
unfolding lower_char
lower_char_idem c = ground arith

lower-lstrip : (s : Text) → lstrip (lower s) ≡ lower (lstrip s)
unfolding lower lstrip
lower-lstrip [] = refl
lower-lstrip (c ∷ s) = elim (Bool-cases (is_space c)) [
  | inl e ↦
      lstrip_blank (lower_char c) (map lower_char s) (lower_char-space c ∙ e)
      ∙ lower-lstrip s
      ∙ ap (map lower_char) (sym (lstrip_blank c s e))
  | inr e ↦
      lstrip_dark (lower_char c) (map lower_char s) (lower_char-space c ∙ e)
      ∙ ap (map lower_char) (sym (lstrip_dark c s e))
]

abbrev kept_end : ℕ → Text → Text
kept_end c r = elim r [ [] ↦ if is_space c then [] else c ∷ [] | d ∷ t ↦ c ∷ d ∷ t ]

lower-kept_end :
    (c : ℕ) (r : Text) → kept_end (lower_char c) (map lower_char r) ≡ map lower_char (kept_end c r)
lower-kept_end c [] = elim (Bool-cases (is_space c)) [
  | inl e ↦ rw (lower_char-space c, e) refl
  | inr e ↦ rw (lower_char-space c, e) refl
]
lower-kept_end c (d ∷ r) = refl

lower-rstrip : (s : Text) → rstrip (lower s) ≡ lower (rstrip s)
unfolding lower rstrip
lower-rstrip [] = refl
lower-rstrip (c ∷ s) = ap (kept_end (lower_char c)) (lower-rstrip s) ∙ lower-kept_end c (rstrip s)

lower_idem : (s : Text) → lower (lower s) ≡ lower s
unfolding lower
lower_idem [] = refl
lower_idem (c ∷ s) = cc (lower_char_idem c, lower_idem s)

-- What is stripped and in small letters stays so.
pub lower-strip_idem : (s : Text) → lower (strip (lower (strip s))) ≡ lower (strip s)
unfolding strip
lower-strip_idem s =
    ap (λ t. lower (rstrip t)) (lower-lstrip (strip s))
    ∙ ap lower (lower-rstrip (lstrip (strip s)))
    ∙ lower_idem (strip (strip s))
    ∙ ap lower (strip-eq (strip s) (strip-IsStripped s))
