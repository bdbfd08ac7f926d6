-- ===== src/Tests/Labels.antt =====
-- The labels of a round's coins, and which coins may be spent together.
use si_lnt.Prelude.{◌≡◌, ◌↔◌, refl, true, Option, none, some, List, [], ◌∷◌}
use si_lnt.Prelude.Text.{Text, codes, strip, lower}
use si_lnt.Labels.{
  written, spk_list, When, no_day, day_text, day_marker, or_empty, labelled, strip_marker, party,
  mix_party, wrote_label, mix_label, change_label, change_prefix, coin_labels, coin_labels_from,
}
use si_lnt.Labels.Party.{labels_read_back}
use si_lnt.Labels.Undo.{Labelled, undoes_a_round, see, see_all}
use si_lnt.Prelude.Sort.{sort, insert}
use si_lnt.Labels.Undo.Safe.{IsSafe, undoes_a_round_iff}

abbrev alice : Option Text
alice = some (codes " alice ")

abbrev day : When
day = day_text (codes "2026-09-24T10:00")

share_label : mix_label alice day ≡ codes "Tango share - alice · 2026-09-24"
unfolding labelled day_marker strip
share_label = refl

bare_label : change_label none no_day ≡ codes "Tango change"
unfolding labelled day_marker strip
bare_label = refl

old_label : mix_party (codes "Tango mix - bob #fagk") ≡ some (codes "bob")
unfolding mix_party party strip_marker strip
old_label = refl

not_ours : mix_party (codes "Tango mix money") ≡ none
unfolding mix_party party strip_marker strip
not_ours = refl

one_script : spk_list (λ text. none) (written (codes " 5120AB ")) ≡ codes "5120ab" ∷ []
unfolding spk_list strip lower
one_script = refl

by_value :
    coin_labels
      ((codes "51AA", 700) ∷ (codes "51bb", 300) ∷ [])
      700
      (codes " 51aa" ∷ codes "51BB" ∷ codes "51cc" ∷ [])
      none
      no_day
    ≡ (codes "51aa", codes "Tango share") ∷ (codes "51bb", codes "Tango change") ∷ []
unfolding coin_labels_from labelled day_marker strip lower
by_value = refl

labels_read_back_example :
    (mix_party (mix_label alice day) ≡ some (strip (or_empty alice)))
    × (party (change_label alice day) change_prefix ≡ some (strip (or_empty alice)))
    × (mix_party (change_label alice day) ≡ none)
    × (party (mix_label alice day) change_prefix ≡ none)
    × (wrote_label (mix_label alice day) ≡ true)
    × (wrote_label (change_label alice day) ≡ true)
unfolding day_marker strip
labels_read_back_example = labels_read_back alice day refl

abbrev pieces : List Labelled
pieces = (codes "t1", codes "Tango share - bob") ∷ (codes "t1", codes "Tango mix - bob") ∷ []

two_pieces : undoes_a_round pieces ≡ some (codes "bob")
unfolding undoes_a_round see_all see mix_party party strip_marker strip sort insert
two_pieces = refl

undoes_a_round_iff_example : (undoes_a_round pieces ≡ none) ↔ IsSafe pieces
undoes_a_round_iff_example = undoes_a_round_iff pieces
