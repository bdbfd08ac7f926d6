-- ===== src/Chains.antt =====
-- helpers/chains.py: which chain an address belongs to, and whether a wallet may pay it.
pub mod Guard
use si_lnt.Prelude.{
  ℕ, suc, Bool, true, false, not, ◌&&◌, ◌||◌, Option, none, some, List, [], ◌∷◌, length, all, leb,
  ◌==◌, if◌then◌else◌,
}
use si_lnt.Prelude.Text.{Text, codes, strip, lower, starts_with, text_eq, has_char, before_last}

pub data Family : Type 0 where
  main test regtest test_or_regtest : Family

pub data Wallet : Type 0 where
  main test regtest : Wallet

-- `_BECH32_FAMILY`, by human-readable part.
unfoldable pub bech32_family : Text → Option Family
bech32_family hrp =
    if text_eq hrp (codes "bc")
    then some Family.main
    else if text_eq hrp (codes "sp")
    then some Family.main
    else if text_eq hrp (codes "tb")
    then some Family.test
    else if text_eq hrp (codes "tsp")
    then some Family.test
    else if text_eq hrp (codes "bcrt")
    then some Family.regtest
    else none

-- The base58 alphabet: digits and letters without 0, O, I and l.
unfoldable pub is_base58_char : ℕ → Bool
is_base58_char c =
    (leb b'1' c && leb c b'9')
    || (leb b'A' c && leb c b'Z' && not (c == b'I') && not (c == b'O'))
    || (leb b'a' c && leb c b'z' && not (c == b'l'))

unfoldable pub looks_base58 : Text → Bool
looks_base58 address =
    leb 26 (length address) && leb (length address) 35 && all is_base58_char address

-- The part behind the bech32 table: by the first character of a base58 address.
unfoldable pub base58_family : Text → Option Family
base58_family raw =
    if looks_base58 raw
    then (if starts_with raw (codes "1") || starts_with raw (codes "3")
        then some Family.main
        else if starts_with raw (codes "m")
            || starts_with raw (codes "n")
            || starts_with raw (codes "2")
        then some Family.test_or_regtest
        else none)
    else none

abbrev pub or_else : Option Family → Option Family → Option Family
or_else (some f) g = some f
or_else none g = g

-- `None` is "this guard has nothing to say".
unfoldable pub address_chain_family : Text → Option Family
address_chain_family address =
    let a = lower (strip address) in
    if text_eq a []
    then none
    else or_else (if has_char b'1' a then bech32_family (before_last b'1' a) else none)
        (base58_family (strip address))

unfoldable pub wallet_chain_family : Text → Wallet
wallet_chain_family network =
    let n = lower (strip network) in
    if text_eq n (codes "mainnet")
    then Wallet.main
    else if text_eq n (codes "regtest")
    then Wallet.regtest
    else Wallet.test

-- The tests of `recipient_chain_mismatch` on the two families: `true` lets the send through.
unfoldable pub accepts : Wallet → Family → Bool
accepts Wallet.main Family.main = true
accepts Wallet.test Family.test = true
accepts Wallet.regtest Family.regtest = true
accepts Wallet.test Family.test_or_regtest = true
accepts Wallet.regtest Family.test_or_regtest = true
accepts Wallet.regtest Family.test = true
accepts _ _ = false

-- The message names the address's chain and the wallet's network.
pub record Mismatch : Type 0 where
  pub theirs : Family
  pub network : Text

unfoldable pub recipient_chain_mismatch : Text → Text → Option Mismatch
recipient_chain_mismatch recipient network =
    let addr = strip recipient in
    if text_eq addr [] || has_char b'@' addr then none else elim (address_chain_family addr) [
      | none ↦ none
      | some theirs ↦
          if accepts (wallet_chain_family network) theirs
          then none
          else some (record { theirs = theirs; network = network })
    ]
