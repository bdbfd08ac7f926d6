-- ===== src/Payout/Invoice.antt =====
-- helpers/bolt11net.py: which chain a bolt11 invoice is for, and whether it may pay a change.
use si_lnt.Prelude.{
  ℕ, ◌++◌, ◌≡◌, ◌↔◌, ◌⊎◌, inl, inr, refl, arith, true, false, Option, none, some, List, [], ◌∷◌,
  ◌==◌, if◌then◌else◌, ap,
}
use mathlib.Core.Logic.Iff
use si_lnt.Prelude.Text.{Text, codes, strip, lower, starts_with, text_eq, text_eq_refl}

pub data Network : Type 0 where
  mainnet testnet signet regtest : Network

unfoldable pub network_name : Network → Text
network_name mainnet = codes "mainnet"
network_name testnet = codes "testnet"
network_name signet = codes "signet"
network_name regtest = codes "regtest"

-- `_PREFIXES`, longest first.
abbrev pub prefixes : List (Text × Network)
prefixes =
    (codes "lnbcrt", regtest)
    ∷ (codes "lntbs", signet)
    ∷ (codes "lnsb", signet)
    ∷ (codes "lntb", testnet)
    ∷ (codes "lnbc", mainnet)
    ∷ []

first_match : Text → List (Text × Network) → Option Network
first_match text [] = none
first_match text ((prefix, network) ∷ rest) =
    if starts_with text prefix then some network else first_match text rest

unfoldable pub invoice_network : Text → Option Network
unfolding first_match
invoice_network bolt11 = first_match (lower (strip bolt11)) prefixes

-- Why an invoice is refused.
pub data Refusal : Type 0 where
  no_network unreadable : Refusal
  wrong_chain : Network → Refusal

-- The comparison of the invoice's chain with the one that is wanted.
judge : Option Network → Text → Option Refusal
judge none want = some unreadable
judge (some got) want = if text_eq (network_name got) want then none else some (wrong_chain got)

unfoldable pub network_mismatch : Text → Text → Option Refusal
unfolding judge
network_mismatch bolt11 network =
    let want = lower (strip network) in
    if text_eq want [] then some no_network else judge (invoice_network bolt11) want

-- What BOLT 11 says of an invoice's first letters, chain by chain.
abbrev pub IsFor : Network → Text → Type 0
IsFor mainnet t = (starts_with t (codes "lnbc") ≡ true) × (starts_with t (codes "lnbcrt") ≡ false)
IsFor testnet t = (starts_with t (codes "lntb") ≡ true) × (starts_with t (codes "lntbs") ≡ false)
IsFor signet t = (starts_with t (codes "lntbs") ≡ true) ⊎ (starts_with t (codes "lnsb") ≡ true)
IsFor regtest t = starts_with t (codes "lnbcrt") ≡ true

-- Two literals that differ at the same place are not both prefixes.
apart :
    (t p : Text) (c d : ℕ) (q r : Text)
    → (c == d) ≡ false
    → starts_with t (p ++ c ∷ q) ≡ true
    → starts_with t (p ++ d ∷ r) ≡ false
apart [] [] c d q r ne h = refl
apart [] (x ∷ p) c d q r ne h = refl
apart (y ∷ t) [] c d q r ne h = ground arith
apart (y ∷ t) (x ∷ p) c d q r ne h = ground (arith, apart t p c d q r ne)

IsFor→first_match : (n : Network) (t : Text) → IsFor n t → first_match t prefixes ≡ some n
unfolding first_match
IsFor→first_match mainnet t (is, isnt) =
    rw
      (
        isnt,
        apart t (codes "ln") b'b' b't' (codes "c") (codes "bs") refl is,
        apart t (codes "ln") b'b' b's' (codes "c") (codes "b") refl is,
        apart t (codes "ln") b'b' b't' (codes "c") (codes "b") refl is,
        is,
      )
      refl
IsFor→first_match testnet t (is, isnt) =
    rw
      (
        apart t (codes "ln") b't' b'b' (codes "b") (codes "crt") refl is,
        isnt,
        apart t (codes "ln") b't' b's' (codes "b") (codes "b") refl is,
        is,
      )
      refl
IsFor→first_match signet t (inl is) =
    rw (apart t (codes "ln") b't' b'b' (codes "bs") (codes "crt") refl is, is) refl
IsFor→first_match signet t (inr is) =
    rw
      (
        apart t (codes "ln") b's' b'b' (codes "b") (codes "crt") refl is,
        apart t (codes "ln") b's' b't' (codes "b") (codes "bs") refl is,
        is,
      )
      refl
IsFor→first_match regtest t is = rw is refl

first_match→IsFor : (n : Network) (t : Text) → first_match t prefixes ≡ some n → IsFor n t
unfolding first_match
first_match→IsFor mainnet t h = ground arith
first_match→IsFor _ t h = ground arith

-- The table, read longest first, names a chain exactly for the invoices that BOLT 11 gives it: a
-- regtest invoice, whose prefix begins like mainnet's, is never read as mainnet.
pub invoice_network_iff :
    (n : Network) (bolt11 : Text)
    → (invoice_network bolt11 ≡ some n) ↔ IsFor n (lower (strip bolt11))
unfolding invoice_network
invoice_network_iff n bolt11 = (first_match→IsFor n _, IsFor→first_match n _)

network_name-ne_nil : (n : Network) → text_eq (network_name n) [] ≡ false
unfolding network_name
network_name-ne_nil mainnet = refl
network_name-ne_nil _ = refl

network_name-inj : (m n : Network) → text_eq (network_name m) (network_name n) ≡ true → m ≡ n
unfolding network_name
network_name-inj m n h = ground arith

judge_iff : (n : Network) (o : Option Network) → (judge o (network_name n) ≡ none) ↔ (o ≡ some n)
unfolding judge
judge_iff n none = ((λ h. cc), (λ h. cc))
judge_iff n (some got) = (
  (λ h. ap some (network_name-inj got n (ground arith))),
  (λ h. let same : got ≡ n = cc h in rw (same, text_eq_refl (network_name n)) refl),
)

-- An invoice may pay a round's change exactly when it is an invoice for the chain that the round
-- names; an unreadable one never may.
pub network_mismatch_iff :
    (n : Network) (bolt11 network : Text)
    → lower (strip network) ≡ network_name n
    → (network_mismatch bolt11 network ≡ none) ↔ IsFor n (lower (strip bolt11))
unfolding network_mismatch
network_mismatch_iff n bolt11 network named =
    rw (named, network_name-ne_nil n)
      (Iff.trans (judge_iff n (invoice_network bolt11)) (invoice_network_iff n bolt11))
