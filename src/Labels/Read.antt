-- ===== src/Labels/Read.antt =====
-- How a label that was put together is taken apart.
use si_lnt.Prelude.{
  ℕ, suc, ◌+◌, ◌≡◌, refl, ap, ◌∙◌, arith, Bool, true, false, not, ◌&&◌, none, some, [], ◌∷◌, ◌++◌,
  is_empty, length, take, if◌then◌else◌, Bool-cases, inl, inr, ◌⊎◌,
}
use mathlib.Core.List.{append_assoc}
use si_lnt.Prelude.Text.{Text, codes, strip, is_space, rstrip, starts_with, text_eq, text_eq_refl}
use si_lnt.Prelude.Find.{
  drop, has_text, before_last_text-append, rstrip-append, IsStripped, strip-eq,
}
use si_lnt.Labels.{
  When, no_day, day_text, date, marker_text, day_marker, and_part, day_sep, tag_sep, strip_marker,
  party_of, party,
}

IsStripped-append :
    (s : Text) (c : ℕ) (t : Text)
    → IsStripped (c ∷ t)
    → (d : ℕ) → is_space d ≡ false
    → IsStripped (d ∷ s ++ c ∷ t)
IsStripped-append s c t (_, h) d dark = (dark, rstrip-append (d ∷ s) c t h)

text_eq-longer : (p : Text) (c : ℕ) (s : Text) → text_eq (p ++ c ∷ s) p ≡ false
text_eq-longer [] c s = refl
text_eq-longer (d ∷ p) c s = ground (arith, text_eq-longer p c s)

starts_with-blank : (p s : Text) → starts_with (p ++ b' ' ∷ s) (p ++ b' ' ∷ []) ≡ true
starts_with-blank [] [] = refl
starts_with-blank [] (c ∷ s) = refl
starts_with-blank (d ∷ p) s = ground (arith, starts_with-blank p s)

drop-suc : (p s : Text) → drop (suc (length p)) (p ++ b' ' ∷ s) ≡ s
drop-suc [] s = refl
drop-suc (d ∷ p) s = drop-suc p s

drop-prefix : (p s : Text) → drop (length p + 1) (p ++ b' ' ∷ s) ≡ s
drop-prefix p s =
    let n : length p + 1 ≡ suc (length p) = omega arith in
    ap (λ n. drop n (p ++ b' ' ∷ s)) n ∙ drop-suc p s

-- A prefix of ours, with something behind it.
party-prefixed :
    (d : ℕ) (p : Text) (c : ℕ) (t : Text)
    → is_space d ≡ false
    → IsStripped (c ∷ t)
    → party (d ∷ p ++ b' ' ∷ c ∷ t) (d ∷ p) ≡ party_of (c ∷ t)
unfolding party
party-prefixed d p c t dark h =
    let whole : strip (d ∷ (p ++ b' ' ∷ c ∷ t)) ≡ d ∷ (p ++ b' ' ∷ c ∷ t) =
      strip-eq _ (dark, rstrip-append (d ∷ p) b' ' (c ∷ t) (rstrip-append (b' ' ∷ []) c t h.1)) in
    rw
      (
        whole,
        text_eq-longer (d ∷ p) b' ' (c ∷ t),
        starts_with-blank (d ∷ p) (c ∷ t),
        drop-prefix (d ∷ p) (c ∷ t),
        strip-eq (c ∷ t) h,
      )
      refl

-- What is behind a prefix that is not ours.
pub party-foreign :
    (label prefix : Text)
    → IsStripped label
    → text_eq label prefix ≡ false
    → starts_with label (prefix ++ codes " ") ≡ false
    → party label prefix ≡ none
unfolding party
party-foreign label prefix h other behind = rw (strip-eq label h, other, behind) refl

party-bare : (prefix : Text) → IsStripped prefix → party prefix prefix ≡ some []
unfolding party
party-bare prefix h = rw (strip-eq prefix h, text_eq_refl prefix) refl

-- Whether a name can be read back out of a label with this marker: a marker is cut off at its
-- separator, and without a marker the name must have none.
abbrev pub reads_back : Text → Text → Bool
reads_back who mark =
    if is_empty mark
    then not (has_text day_sep who) && not (has_text tag_sep who)
    else text_eq (strip mark) mark && not (has_text day_sep mark)

pub marker-shape :
    (when : When) → (day_marker when ≡ []) ⊎ ((t : Text) × (day_marker when ≡ codes "· " ++ t))
unfolding day_marker
marker-shape no_day = inl refl
marker-shape (day_text when) = marked (take 10 (strip when))
  where
    marked : (t : Text) → (marker_text t ≡ []) ⊎ ((u : Text) × (marker_text t ≡ codes "· " ++ u))
    marked [] = inl refl
    marked (c ∷ t) = inr (c ∷ t, refl)
marker-shape (date none) = inl refl
marker-shape (date (some t)) = inr (t, refl)

abbrev pub label : Text → Text → Text → Text
label prefix who mark =
    and_part (and_part prefix (if is_empty who then [] else codes "- " ++ who)) mark

dash_dark : is_space b'-' ≡ false
unfolding is_space
dash_dark = refl

dot_dark : is_space 183 ≡ false
unfolding is_space
dot_dark = refl

strip_marker-none : (who : Text) → reads_back who [] ≡ true → strip_marker who ≡ who
unfolding strip_marker
strip_marker-none who h = elim (Bool-cases (has_text day_sep who)) [
  | inl e ↦ absurd (let bad = rw e at h in cc)
  | inr e ↦ elim (Bool-cases (has_text tag_sep who)) [
    | inl e' ↦ absurd (let bad = rw (e, e') at h in cc)
    | inr e' ↦ rw (e, e') refl
  ]
]

strip_marker-day :
    (who t : Text)
    → IsStripped who
    → has_text day_sep (codes "· " ++ t) ≡ false
    → strip_marker (who ++ b' ' ∷ (codes "· " ++ t)) ≡ who
unfolding strip_marker
strip_marker-day who t h last =
    let (there, before) = before_last_text-append day_sep who b' ' (codes "· " ++ t) refl last in
    rw (there, before) (strip-eq who h)

-- A label without a marker.
pub party-plain :
    (d : ℕ) (p who : Text)
    → is_space d ≡ false
    → IsStripped (d ∷ p)
    → IsStripped who
    → reads_back who [] ≡ true
    → party (label (d ∷ p) who []) (d ∷ p) ≡ some who
party-plain d p [] dark own h reads = party-bare (d ∷ p) own
party-plain d p (c ∷ who) dark own (front, last) reads =
    party-prefixed d p b'-' (b' ' ∷ c ∷ who) dark
      (dash_dark, rstrip-append (b'-' ∷ b' ' ∷ []) c who last)
    ∙ ap some
        (ap strip_marker (strip-eq (c ∷ who) (front, last)) ∙ strip_marker-none (c ∷ who) reads)

-- A label with one.
pub party-marked :
    (d : ℕ) (p who t : Text)
    → is_space d ≡ false
    → IsStripped who
    → rstrip (codes "· " ++ t) ≡ codes "· " ++ t
    → has_text day_sep (codes "· " ++ t) ≡ false
    → party (label (d ∷ p) who (codes "· " ++ t)) (d ∷ p) ≡ some who
party-marked d p [] t dark h ends last = party-prefixed d p 183 (b' ' ∷ t) dark (dot_dark, ends)
party-marked d p (c ∷ who) t dark (front, own) ends last =
    let mark = codes "· " ++ t in
    let ended = rstrip-append (c ∷ who) b' ' mark (rstrip-append (b' ' ∷ []) 183 (b' ' ∷ t) ends) in
    ap (λ l. party l (d ∷ p)) (append_assoc (d ∷ p) (b' ' ∷ b'-' ∷ b' ' ∷ c ∷ who) (b' ' ∷ mark))
    ∙ party-prefixed d p b'-' (b' ' ∷ c ∷ who ++ b' ' ∷ mark) dark
        (dash_dark, rstrip-append (b'-' ∷ b' ' ∷ []) c (who ++ b' ' ∷ mark) ended)
    ∙ ap some (
        ap strip_marker (strip-eq (c ∷ who ++ b' ' ∷ mark) (front, ended))
        ∙ strip_marker-day (c ∷ who) t (front, own) last)
