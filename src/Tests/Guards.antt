-- ===== src/Tests/Guards.antt =====
-- helpers/chains.py at concrete addresses.
use si_lnt.Prelude.{true, ◌≡◌, ◌↔◌, refl, ◌++◌, none, some, ◌∷◌}
use si_lnt.Prelude.Text.{Text, codes, strip, lower}
use si_lnt.Chains.{
  Family, bech32_family, base58_family, looks_base58, is_base58_char, address_chain_family,
  wallet_chain_family, accepts, recipient_chain_mismatch,
}
use si_lnt.Chains.Guard.{test_silent, may_pay, recipient_chain_mismatch_iff}

abbrev rest : Text
rest = codes "qw508d6qejxtdg4y5r3zarvary0c5xw7kv8f3t4"

mainnet_on_signet :
    recipient_chain_mismatch (codes "  BC" ++ b'1' ∷ rest) (codes "signet")
    ≡ some (record { theirs = Family.main; network = codes "signet" })
unfolding recipient_chain_mismatch address_chain_family wallet_chain_family bech32_family accepts
    strip lower
mainnet_on_signet = refl

base58_on_mainnet :
    recipient_chain_mismatch (codes "1BvBMSEYstWetqTFn5Au4m4GFg7xJaNVN2") (codes "mainnet") ≡ none
unfolding recipient_chain_mismatch address_chain_family wallet_chain_family bech32_family
    base58_family looks_base58 is_base58_char accepts strip lower
base58_on_mainnet = refl

accepted : recipient_chain_mismatch (codes "tsp" ++ b'1' ∷ rest) (codes "signet") ≡ none
unfolding recipient_chain_mismatch address_chain_family wallet_chain_family bech32_family accepts
    strip lower
accepted = refl

recipient_chain_mismatch_iff_example :
    (recipient_chain_mismatch (codes "tsp" ++ b'1' ∷ rest) (codes "signet") ≡ none)
    ↔ (may_pay (lower (strip (codes "signet"))) Family.test ≡ true)
unfolding strip lower
recipient_chain_mismatch_iff_example =
    recipient_chain_mismatch_iff (codes "tsp" ++ b'1' ∷ rest) (codes "signet") Family.test
      (test_silent (codes "tsp") rest refl refl) refl
