-- ===== src/Tests/Bech32.antt =====
-- Addresses of BIP-173 and BIP-350.
use si_lnt.Prelude.{◌≡◌, refl, [], ◌∷◌, some}
use si_lnt.Prelude.Text.{codes, lower, lower_char}
use si_lnt.Bech32.Program.{IsAddressOf, address_to_scriptpubkey_lem}
use si_lnt.Bech32.{
  address_to_scriptpubkey, bech32_decode, bech32_polymod, verify_checksum, emit, convertbits,
  witness_script,
}

p2wpkh :
    address_to_scriptpubkey (codes "BC1QW508D6QEJXTDG4Y5R3ZARVARY0C5XW7KV8F3T4")
    ≡ some (
        0 ∷ 20 ∷ 117 ∷ 30 ∷ 118 ∷ 232 ∷ 25 ∷ 145 ∷ 150 ∷ 212 ∷ 84 ∷ 148 ∷ 28 ∷ 69 ∷ 209 ∷ 179 ∷ 163
        ∷ 35 ∷ 241 ∷ 67 ∷ 59 ∷ 214 ∷ [])
unfolding address_to_scriptpubkey bech32_decode bech32_polymod verify_checksum emit convertbits
    witness_script lower lower_char
p2wpkh = refl

address_to_scriptpubkey_lem_example :
    IsAddressOf (codes "BC1QW508D6QEJXTDG4Y5R3ZARVARY0C5XW7KV8F3T4") (
      0 ∷ 20 ∷ 117 ∷ 30 ∷ 118 ∷ 232 ∷ 25 ∷ 145 ∷ 150 ∷ 212 ∷ 84 ∷ 148 ∷ 28 ∷ 69 ∷ 209 ∷ 179 ∷ 163
      ∷ 35 ∷ 241 ∷ 67 ∷ 59 ∷ 214 ∷ [])
address_to_scriptpubkey_lem_example =
    address_to_scriptpubkey_lem (codes "BC1QW508D6QEJXTDG4Y5R3ZARVARY0C5XW7KV8F3T4") _ p2wpkh
