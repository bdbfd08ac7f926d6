-- ===== src/Tests.antt =====
-- Runs of the model on concrete inputs, and the theorems at such inputs.
mod TxSize
mod Tango
mod Guards
mod Payout
mod BlockTime
mod Limits
mod Round
mod Runner
mod Outputs
mod Bech32
mod Plain
mod Payjoin
mod Send
mod History
mod Labels
mod Coins
mod Registration
