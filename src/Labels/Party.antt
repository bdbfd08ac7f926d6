-- ===== src/Labels/Party.antt =====
-- A label that a round wrote reads back as it was written.
use si_lnt.Prelude.{
  ◌≡◌, refl, sym, ap, true, false, not, Option, none, some, [], ◌∷◌, ◌++◌, and-true, not-true, inl,
  inr,
}
use mathlib.Core.List.{append_assoc, append-nil}
use mathlib.Core.Path.{subst}
use si_lnt.Prelude.Text.{Text, codes, strip, is_space, rstrip, text_eq, text_eq→≡}
use si_lnt.Prelude.Find.{has_text, rstrip-append, IsStripped, strip-IsStripped}
use si_lnt.Labels.{
  When, day_marker, or_empty, labelled, mix_label, change_label, mix_prefix, change_prefix,
  legacy_mix_prefix, day_sep, party, mix_party, wrote_label,
}
use si_lnt.Labels.Read.{party-foreign, reads_back, marker-shape, label, party-plain, party-marked}

Texts-IsStripped : IsStripped mix_prefix × IsStripped change_prefix
unfolding is_space rstrip
Texts-IsStripped = ((refl, refl), (refl, refl))

dark_T : is_space b'T' ≡ false
unfolding is_space
dark_T = refl

module _ (other : Option Text) (when : When) where
  abbrev name_of : Text
  name_of = strip (or_empty other)

  named-party :
      (p : Text)
      → IsStripped (b'T' ∷ p)
      → reads_back name_of (day_marker when) ≡ true
      → party (labelled (b'T' ∷ p) other when) (b'T' ∷ p) ≡ some name_of
  unfolding labelled
  named-party p own h = elim (marker-shape when) [
    | inl e ↦
        let g = rw e at h in
        rw e (party-plain b'T' p name_of dark_T own (strip-IsStripped (or_empty other)) g)
    | inr (t, e) ↦
        let g = rw e at h in
        let mark = codes "· " ++ t in
        let (ended, last) = and-true (text_eq (strip mark) mark) (not (has_text day_sep mark)) g in
        let same = text_eq→≡ (strip mark) mark ended in
        let (_, ends) = subst IsStripped same (strip-IsStripped mark) in
        rw e (
          party-marked b'T' p name_of t dark_T (strip-IsStripped (or_empty other)) ends
            (not-true _ last))
  ]

part-shape :
    (p who mark : Text)
    → IsStripped (b'T' ∷ p)
    → IsStripped who
    → IsStripped mark
    → IsStripped (label (b'T' ∷ p) who mark)
      × ((s : Text) × (label (b'T' ∷ p) who mark ≡ b'T' ∷ (p ++ s)))
part-shape p [] [] own h h' = (own, ([], ap (λ s. b'T' ∷ s) (sym (append-nil p))))
part-shape p [] (m ∷ mark) own h (_, ends) = (
  (dark_T, rstrip-append (b'T' ∷ p) b' ' (m ∷ mark) (rstrip-append (b' ' ∷ []) m mark ends)),
  (b' ' ∷ m ∷ mark, refl),
)
part-shape p (c ∷ who) [] own (_, ends) h' = (
  (
    dark_T,
    rstrip-append (b'T' ∷ p) b' ' (b'-' ∷ b' ' ∷ c ∷ who)
        (rstrip-append (b' ' ∷ b'-' ∷ b' ' ∷ []) c who ends),
  ),
  (b' ' ∷ b'-' ∷ b' ' ∷ c ∷ who, refl),
)
part-shape p (c ∷ who) (m ∷ mark) own h (_, ends) = (
  (
    dark_T,
    rstrip-append (b'T' ∷ (p ++ b' ' ∷ b'-' ∷ b' ' ∷ c ∷ who)) b' ' (m ∷ mark)
        (rstrip-append (b' ' ∷ []) m mark ends),
  ),
  (
    (b' ' ∷ b'-' ∷ b' ' ∷ c ∷ who) ++ b' ' ∷ m ∷ mark,
    append_assoc (b'T' ∷ p) (b' ' ∷ b'-' ∷ b' ' ∷ c ∷ who) (b' ' ∷ m ∷ mark),
  ),
)

mark-IsStripped : (who mark : Text) → reads_back who mark ≡ true → IsStripped mark
mark-IsStripped who [] h = tt
mark-IsStripped who (m ∷ mark) h =
    let (ended, _) = and-true (text_eq (strip (m ∷ mark)) (m ∷ mark)) _ h in
    subst IsStripped (text_eq→≡ (strip (m ∷ mark)) (m ∷ mark) ended) (strip-IsStripped (m ∷ mark))

-- A label of a change is not one of a share, under either name.
change-foreign :
    (other : Option Text) (when : When)
    → reads_back (name_of other when) (day_marker when) ≡ true
    → mix_party (change_label other when) ≡ none
unfolding mix_party labelled
change-foreign other when h =
    let who = strip (or_empty other) in
    let mark = day_marker when in
    let (clean, (s, e)) =
      part-shape (codes "ango change") who mark Texts-IsStripped.1
        (strip-IsStripped (or_empty other)) (mark-IsStripped who mark h) in
    let strips = subst IsStripped e clean in
    rw
      (
        e,
        party-foreign (change_prefix ++ s) mix_prefix strips refl refl,
        party-foreign (change_prefix ++ s) legacy_mix_prefix strips refl refl,
      )
      refl

-- Nor is one of a share one of a change.
share-foreign :
    (other : Option Text) (when : When)
    → reads_back (name_of other when) (day_marker when) ≡ true
    → party (mix_label other when) change_prefix ≡ none
unfolding labelled
share-foreign other when h =
    let who = strip (or_empty other) in
    let mark = day_marker when in
    let (clean, (s, e)) =
      part-shape (codes "ango share") who mark Texts-IsStripped.0
        (strip-IsStripped (or_empty other)) (mark-IsStripped who mark h) in
    let strips = subst IsStripped e clean in
    rw (e, party-foreign (mix_prefix ++ s) change_prefix strips refl refl) refl

wrote-mix : (l : Text) {who : Text} → mix_party l ≡ some who → wrote_label l ≡ true
unfolding wrote_label
wrote-mix l h = rw h refl

wrote-change :
    (l : Text) {who : Text}
    → mix_party l ≡ none
    → party l change_prefix ≡ some who
    → wrote_label l ≡ true
unfolding wrote_label
wrote-change l h h' = rw (h, h') refl

mix-read : (l : Text) {who : Text} → party l mix_prefix ≡ some who → mix_party l ≡ some who
unfolding mix_party
mix-read l h = rw h refl

-- A label reads back. The name of the other side (stripped, and empty where there is none) comes
-- back out of the label of a share and of that of a change, each is read as what it is and not as
-- the other, and both are known as written here. This is where the label's marker has nothing to
-- strip and no separator of its own, or else where there is no marker and the name has none.
pub labels_read_back :
    (other : Option Text) (when : When)
    → reads_back (strip (or_empty other)) (day_marker when) ≡ true
    → (mix_party (mix_label other when) ≡ some (strip (or_empty other)))
      × (party (change_label other when) change_prefix ≡ some (strip (or_empty other)))
      × (mix_party (change_label other when) ≡ none)
      × (party (mix_label other when) change_prefix ≡ none)
      × (wrote_label (mix_label other when) ≡ true)
      × (wrote_label (change_label other when) ≡ true)
labels_read_back other when h =
    let share =
      mix-read (mix_label other when)
        (named-party other when (codes "ango share") Texts-IsStripped.0 h) in
    let change = named-party other when (codes "ango change") Texts-IsStripped.1 h in
    let foreign = change-foreign other when h in
    (
      share,
      change,
      foreign,
      share-foreign other when h,
      wrote-mix (mix_label other when) share,
      wrote-change (change_label other when) foreign change,
    )
