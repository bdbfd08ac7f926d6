-- ===== src/Lib.antt =====
-- siLNt, a Silent Payments wallet server: the rules that its helpers decide by, and what holds of
-- them.
--
-- The program is a server behind a mobile wallet. Its route handlers (views_api.py) call small
-- helper modules that hold the rules: what the two sides of a Tango (a two-party mix with equal
-- outputs) pay and receive, whether an address or an invoice belongs to the wallet's chain, what
-- a payout of change over Lightning costs and how it is delivered, what a
-- round's coins are called and which of them may be spent together, from which block a scan
-- starts, and who may call what how often. These rules are modelled, with the handlers that move a
-- Tango from its offer to its broadcast or cancellation, the runner that pays routed change out,
-- the table of a wallet's coins with what spends, restores and freezes them, and the registration
-- of an account.
--
-- Files and the code they are about (paths from the repository's root):
--   TxSize, TxSize/Weight        helpers/txsize.py: sizes and fees; BIP-141's weight as reference
--   Payjoin/Inputs               helpers/payjoin_sp.py: the record of a contributed coin
--   Payjoin/Wire, Wire/Shape     helpers/payjoin_sp.py: validate_wire_input(s), validate_spk;
--                                _tango_mix_spks of views_api.py
--   Payjoin/Plan, Plan/Amounts   helpers/payjoin_sp.py: estimate_fee, plan, outputs_for, whose_turn,
--                                require_turn, can_cancel
--   Payjoin/Witnesses, Witnesses/Checked    helpers/payjoin_sp.py: verify_witnesses, the check of
--                                finalize
--   Tango/Plan                   helpers/tango.py: estimate, split_fee, plan, dust_to_fee
--     Price, Balance, Conservation, Fees, Totality    what `plan` guarantees
--   Tango/Outputs, Outputs/Sides, Outputs/Value    helpers/tango.py: mix_scripts, outputs_for,
--                                assemble; helpers/payjoin_sp.py: canonical, owner_indices
--   Tango/Turns, Turns/Order     helpers/tango.py: statuses, whose_turn, require_turn, can_cancel,
--                                is_expired, cancelled_by, who_cancelled
--   Tango/Round/Reserve          models.py's TangoRound; outpoint_key and clashing_outpoints of
--                                helpers/tango.py; get_reserved_tango_outpoints of crud.py
--   Tango/Round/Handlers         views_api.py: api_tango_propose, api_tango_accept,
--                                api_tango_sign, api_tango_cancel, run_tango_sweep
--     Hold, Inversion, Exclusive, Planned, Freed, Final    what they keep
--   Chains, Chains/Guard         helpers/chains.py: address_chain_family, wallet_chain_family,
--                                recipient_chain_mismatch
--   Payout/Invoice               helpers/bolt11net.py: invoice_network, network_mismatch
--   Payout/Plan, Plan/Rule       helpers/tangopayout.py: payout_plan, payout_offered,
--                                payout_address_pin
--   Payout/Threshold             helpers/tangopayout.py: min_change_to_route
--   Payout/Run                   helpers/tangopayoutrun.py: confirmations, backoff, deferral,
--                                statuses
--     Config                     models.py: what BackendConfig says of payouts
--     Queue                      crud.py: the table of payouts and the statements on it
--     Enqueue, Liquidity, Attempt    views_api.py: enqueue_tango_payouts,
--                                check_tango_payout_liquidity, _attempt_tango_payout,
--                                run_tango_payouts, api_admin_tango_payout_retry
--     Steps                      the runs and statements as steps on the books
--     Counts, Once, Paid, Refines, Sound, Budget    what they keep
--   Bech32, with its child modules    helpers/electrum_client.py: address_to_scriptpubkey and what it
--                                decodes with; Bits, Spelled and Program say what an accepted
--                                address spells
--   Plain, Plain/Spend           helpers/plain.py: plan_plain_spend
--   Plain/Scan, Scan/Batch       helpers/plain.py: _summarize, _scan_one, _scan_batched,
--                                scan_addresses
--   Send, Send/Resolved          helpers/send_guards.py: require_recipient_network and
--                                resolve_recipient; helpers/address_resolver.py;
--                                get_issued_bitmail_sp_address of crud.py
--   Send/Coins                   helpers/send_guards.py: validate_spendable_utxos;
--                                get_eligible_utxos of crud.py
--   Labels                       helpers/tangolabels.py: the labels, spk_list, coin_labels
--     Read, Party                how a label reads back
--   Labels/Undo                  helpers/tangolabels.py: undoes_a_round
--     Loop, Safe                 what it lets through
--   Coins                        crud.py: the table silnt.utxos and the statements on it
--   Coins/Spend, Spend/Stays     helpers/scan.py: mark_spent_utxos_batch,
--                                reconcile_unconfirmed_spent
--   Coins/Restore, Restore/Held  views_api.py: check_send_confirmation, api_restore_utxo
--   Coins/Dust                   helpers/dust_check.py; the freezes of crud.py;
--                                api_set_utxo_frozen of views_api.py
--     Settled, Loop, Pass        what a pass makes of the table
--   Coins/Steps, Steps/Spent     the statements and passes as steps on the table
--   History                      helpers/transactions.py: classify, list_wallet_transactions; what
--                                it reads of crud.py
--     Sums, Rows, Balance        what the amounts of its rows add up to
--   Registration, Registration/Guess    crud.py: the pending registrations; the checks of a request
--   Registration/Flow            helpers/email_verification.py: start_registration,
--                                confirm_registration, complete_registration
--     Confirmed, Started         what they lead to
--   BlockTime, BlockTime/Search  helpers/blocktime.py: height_at, search_steps and their steps
--   Limits/Window                the pruned logs of the rate limiters
--   Limits/Register              helpers/register_rate_limiter.py
--   Limits/Invite                helpers/invite_rate_limiter.py
--   Limits/Scan                  helpers/scan_rate_limiter.py
--   Prelude, Floats              shared helpers; the interface of floating-point rates
--   Tests                        examples at concrete inputs
--
-- Conventions. A Python int is ℕ where the code keeps it from being negative and ℤ where it tests
-- for it. A str is a list of code points (Prelude/Text); lower() is that of ASCII.
-- A raised error is the `err` of Prelude/Raise; the limiters, which store before they raise,
-- return their state beside the refusal. A float is an element of an interface (Floats) with four
-- laws of IEEE rounding; Floats.milli instantiates it with thousandths. A dict is a function from
-- keys with its default, a set a list. The clock is an argument, in seconds, read once a call.
--
-- A round's handler is one step on the table of rounds: that two requests may interleave between
-- the check of a coin and the write of the row is outside the model. What a handler asks of the
-- other tables, the explorer and the curve is a parameter (Server).
--
-- The books of payouts are the table and every Lightning payment that was made. A pass reads the
-- clock once, and what a pass meets (the configuration, the broadcast rounds with the depth of
-- their transactions, the provider of a Lightning address, the payment, and whether the statement
-- that records it goes through) is a parameter (World, Outside). A payment that went out, with
-- pay_invoice raising behind it, is a payment that is not recorded; a pending payment that is
-- returned counts as made. Passes and retries are steps, one
-- behind the other. A statement that fails otherwise changes nothing and is left out.
--
-- The plain pocket takes embit's address decoding as a parameter, and the server as its answers.
--
-- The recipient of a send takes the DNS library, the configured domain and the rows of issued
-- BitMails as parameters.
--
-- The table of coins is a list of rows, and a statement on it acts on every row that its WHERE
-- takes. What the explorer says of an outpoint or of a transaction is a parameter, which may differ
-- from block to block; the short hashes of a block are a list.
--
-- The list of transactions takes the txids of the wallet's broadcast rounds as a parameter, and the
-- order of a Python set and of a GROUP BY, which is any, as that of the rows.
--
-- A registration takes LNbits' accounts with the test of a name and the creation of one (Lnbits),
-- the keyed hash of a code, the hash of a password, the verification service and the mail as
-- parameters; a request reads the clock once, and an encrypted token is what it decodes to.
--
-- Bounds and fuel. `search` runs on MAX_SEARCH_STEPS, which is the source's own bound. `bisect`
-- and `count_steps` run on the width of their interval, which every step narrows. `double` makes
-- the source's 64 rounds. `emit` runs on the number of bits there are.
--
-- Not modelled: the other route handlers, the columns of a round's scripts, witnesses and routed
-- changes, the rest of the database, the walk of the scanner over blocks, key derivation and
-- signing (curve arithmetic of native libraries), the texts of mails, push messages, the default
-- extensions of an account, the swap service and the front end.
mod Prelude
pub mod Floats
pub mod TxSize
pub mod Payjoin
pub mod Tango
pub mod Chains
pub mod Bech32
pub mod Payout
pub mod Plain
pub mod Registration
pub mod Coins
pub mod History
pub mod Labels
pub mod Send
pub mod BlockTime
pub mod Limits
mod Tests
