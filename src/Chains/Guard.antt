-- ===== src/Chains/Guard.antt =====
-- What the guard of helpers/chains.py lets through.
use si_lnt.Prelude.{
  ℕ, ◌++◌, ◌≡◌, ◌↔◌, inl, inr, refl, sym, arith, Bool, true, false, not, ◌&&◌, none, some, [], ◌∷◌,
  ◌==◌, if◌then◌else◌, Bool-cases, ap, ◌∙◌,
}
use si_lnt.Prelude.Text.{
  Text, codes, strip, lower, lower_char, text_eq, text_eq→≡, has_char, before_last,
  before_last-append, has_char_mid,
}
use si_lnt.Prelude.Find.{strip-eq, strip-IsStripped}
use si_lnt.Chains.{
  Family, Wallet, Mismatch, bech32_family, base58_family, looks_base58, address_chain_family,
  wallet_chain_family, accepts, recipient_chain_mismatch,
}

lower-append : (s t : Text) → lower (s ++ t) ≡ lower s ++ lower t
unfolding lower
lower-append [] t = refl
lower-append (c ∷ s) t = ap (◌∷◌ (lower_char c)) (lower-append s t)

lower_char-eq_one : (c : ℕ) → (lower_char c == b'1') ≡ (c == b'1')
unfolding lower_char
lower_char-eq_one c = ground arith

has_char-lower : (s : Text) → has_char b'1' (lower s) ≡ has_char b'1' s
unfolding lower
has_char-lower [] = refl
has_char-lower (c ∷ s) = rw (lower_char-eq_one c, has_char-lower s) refl

lower-sep : (hrp rest : Text) → lower (hrp ++ b'1' ∷ rest) ≡ lower hrp ++ b'1' ∷ lower rest
unfolding lower lower_char
lower-sep hrp rest = lower-append hrp (b'1' ∷ rest)

append_cons-ne_nil : (s t : Text) (c : ℕ) → text_eq (s ++ c ∷ t) [] ≡ false
append_cons-ne_nil [] t c = refl
append_cons-ne_nil (d ∷ s) t c = refl

-- An address with a recognised human-readable part is of that part's chain.
address_chain_family-bech32 :
    (hrp rest : Text) (f : Family)
    → strip (hrp ++ b'1' ∷ rest) ≡ hrp ++ b'1' ∷ rest
    → has_char b'1' rest ≡ false
    → bech32_family (lower hrp) ≡ some f
    → address_chain_family (hrp ++ b'1' ∷ rest) ≡ some f
unfolding address_chain_family
address_chain_family-bech32 hrp rest f trimmed one known =
    rw
      (
        trimmed,
        lower-sep hrp rest,
        append_cons-ne_nil (lower hrp) (lower rest) b'1',
        has_char_mid b'1' (lower hrp) (lower rest),
        before_last-append b'1' (lower hrp) (lower rest) (has_char-lower rest ∙ one),
        known,
      )
      refl

-- The addresses of each chain: the human-readable parts of BIP-173 and BIP-352, in any letter case
-- and before the last separator, and the first characters of a base58 address.
pub data IsAddress : Text → Family → Type 0 where
  bitcoin :
      (hrp rest : Text)
      → lower hrp ≡ codes "bc"
      → has_char b'1' rest ≡ false
      → IsAddress (hrp ++ b'1' ∷ rest) Family.main
  silent :
      (hrp rest : Text)
      → lower hrp ≡ codes "sp"
      → has_char b'1' rest ≡ false
      → IsAddress (hrp ++ b'1' ∷ rest) Family.main
  test_bitcoin :
      (hrp rest : Text)
      → lower hrp ≡ codes "tb"
      → has_char b'1' rest ≡ false
      → IsAddress (hrp ++ b'1' ∷ rest) Family.test
  test_silent :
      (hrp rest : Text)
      → lower hrp ≡ codes "tsp"
      → has_char b'1' rest ≡ false
      → IsAddress (hrp ++ b'1' ∷ rest) Family.test
  regtest_bitcoin :
      (hrp rest : Text)
      → lower hrp ≡ codes "bcrt"
      → has_char b'1' rest ≡ false
      → IsAddress (hrp ++ b'1' ∷ rest) Family.regtest
  key_hash : (s : Text) → looks_base58 (b'1' ∷ s) ≡ true → IsAddress (b'1' ∷ s) Family.main
  script_hash : (s : Text) → looks_base58 (b'3' ∷ s) ≡ true → IsAddress (b'3' ∷ s) Family.main
  test_key_hash_m :
      (s : Text) → looks_base58 (b'm' ∷ s) ≡ true → IsAddress (b'm' ∷ s) Family.test_or_regtest
  test_key_hash_n :
      (s : Text) → looks_base58 (b'n' ∷ s) ≡ true → IsAddress (b'n' ∷ s) Family.test_or_regtest
  test_script_hash :
      (s : Text) → looks_base58 (b'2' ∷ s) ≡ true → IsAddress (b'2' ∷ s) Family.test_or_regtest

-- Whether a wallet of this network may pay an address of this chain: what is worth money on mainnet
-- alone, a regtest address on regtest alone, and any other test address off mainnet.
abbrev pub may_pay : Text → Family → Bool
may_pay network Family.main = text_eq network (codes "mainnet")
may_pay network Family.regtest = text_eq network (codes "regtest")
may_pay network _ = not (text_eq network (codes "mainnet"))

on_mainnet : (f : Family) → accepts Wallet.main f ≡ may_pay (codes "mainnet") f
unfolding accepts
on_mainnet Family.main = refl
on_mainnet Family.test = refl
on_mainnet Family.regtest = refl
on_mainnet Family.test_or_regtest = refl

on_regtest : (f : Family) → accepts Wallet.regtest f ≡ may_pay (codes "regtest") f
unfolding accepts
on_regtest Family.main = refl
on_regtest Family.test = refl
on_regtest Family.regtest = refl
on_regtest Family.test_or_regtest = refl

elsewhere :
    (n : Text) (f : Family)
    → text_eq n (codes "mainnet") ≡ false
    → text_eq n (codes "regtest") ≡ false
    → accepts Wallet.test f ≡ may_pay n f
unfolding accepts
elsewhere n Family.main e e' = sym e
elsewhere n Family.test e e' = rw e refl
elsewhere n Family.regtest e e' = sym e'
elsewhere n Family.test_or_regtest e e' = rw e refl

accepts-may_pay :
    (network : Text) (f : Family)
    → accepts (wallet_chain_family network) f ≡ may_pay (lower (strip network)) f
unfolding wallet_chain_family
accepts-may_pay network f =
    let n = lower (strip network) in
    elim (Bool-cases (text_eq n (codes "mainnet"))) [
      | inl e ↦ rw e (on_mainnet f ∙ ap (λ m. may_pay m f) (sym (text_eq→≡ n _ e)))
      | inr e ↦ elim (Bool-cases (text_eq n (codes "regtest"))) [
        | inl e' ↦ rw (e, e') (on_regtest f ∙ ap (λ m. may_pay m f) (sym (text_eq→≡ n _ e')))
        | inr e' ↦ rw (e, e') (elsewhere n f e e')
      ]
    ]

-- No human-readable part begins as a base58 address does.
no_part :
    (d : ℕ) (t : Text)
    → ((x : Text) → bech32_family (d ∷ x) ≡ none)
    → (if has_char b'1' (d ∷ t) then bech32_family (before_last b'1' (d ∷ t)) else none) ≡ none
unfolding bech32_family
no_part d t other = elim (Bool-cases (has_char b'1' (d ∷ t))) [
  | inr e ↦ rw e refl
  | inl e ↦ rw e (elim (Bool-cases (d == b'1' && not (has_char b'1' t))) [
    | inl e' ↦ rw e' refl
    | inr e' ↦ rw e' (other (before_last b'1' t))
  ])
]

base58_only :
    (c : ℕ) (s : Text) (f : Family)
    → strip (c ∷ s) ≡ c ∷ s
    → ((x : Text) → bech32_family (lower_char c ∷ x) ≡ none)
    → base58_family (c ∷ s) ≡ some f
    → address_chain_family (c ∷ s) ≡ some f
unfolding address_chain_family lower
base58_only c s f trimmed other known =
    rw (trimmed, no_part (lower_char c) (lower s) other, known) refl

-- The chain that is read off an address is the one it is of.
address_chain_family-IsAddress :
    (a : Text) (f : Family) → IsAddress a f → strip a ≡ a → address_chain_family a ≡ some f
unfolding bech32_family base58_family lower_char
address_chain_family-IsAddress a f (bitcoin hrp rest part one) trimmed =
    address_chain_family-bech32 hrp rest f trimmed one (rw part refl)
address_chain_family-IsAddress a f (silent hrp rest part one) trimmed =
    address_chain_family-bech32 hrp rest f trimmed one (rw part refl)
address_chain_family-IsAddress a f (test_bitcoin hrp rest part one) trimmed =
    address_chain_family-bech32 hrp rest f trimmed one (rw part refl)
address_chain_family-IsAddress a f (test_silent hrp rest part one) trimmed =
    address_chain_family-bech32 hrp rest f trimmed one (rw part refl)
address_chain_family-IsAddress a f (regtest_bitcoin hrp rest part one) trimmed =
    address_chain_family-bech32 hrp rest f trimmed one (rw part refl)
address_chain_family-IsAddress a f (key_hash s good) trimmed =
    base58_only b'1' s f trimmed (λ x. refl) (rw good refl)
address_chain_family-IsAddress a f (script_hash s good) trimmed =
    base58_only b'3' s f trimmed (λ x. refl) (rw good refl)
address_chain_family-IsAddress a f (test_key_hash_m s good) trimmed =
    base58_only b'm' s f trimmed (λ x. refl) (rw good refl)
address_chain_family-IsAddress a f (test_key_hash_n s good) trimmed =
    base58_only b'n' s f trimmed (λ x. refl) (rw good refl)
address_chain_family-IsAddress a f (test_script_hash s good) trimmed =
    base58_only b'2' s f trimmed (λ x. refl) (rw good refl)

address_chain_family-nil : address_chain_family [] ≡ none
unfolding address_chain_family strip lower
address_chain_family-nil = refl

recognised_nonempty :
    (s : Text) (f : Family) → address_chain_family s ≡ some f → text_eq s [] ≡ false
recognised_nonempty [] f h = cc address_chain_family-nil
recognised_nonempty (c ∷ s) f h = refl

passes_iff :
    (allowed : Bool) (m : Mismatch) → ((if allowed then none else some m) ≡ none) ↔ (allowed ≡ true)
passes_iff true m = (λ h. refl, λ h. refl)
passes_iff false m = (λ h. cc h, λ h. cc h)

-- An address of one of the chains, with whatever blanks around it, that is no BitMail is let through
-- exactly where the network that the wallet names, with whatever blanks and in any letter case, may
-- pay that chain.
pub recipient_chain_mismatch_iff :
    (recipient network : Text) (f : Family)
    → IsAddress (strip recipient) f
    → has_char b'@' (strip recipient) ≡ false
    → (recipient_chain_mismatch recipient network ≡ none)
      ↔ (may_pay (lower (strip network)) f ≡ true)
unfolding recipient_chain_mismatch
recipient_chain_mismatch_iff recipient network f address no_at =
    let a = strip recipient in
    let known =
      address_chain_family-IsAddress a f address (strip-eq a (strip-IsStripped recipient)) in
    rw (recognised_nonempty a f known, no_at, known, sym (accepts-may_pay network f))
      (passes_iff (accepts (wallet_chain_family network) f) _)
