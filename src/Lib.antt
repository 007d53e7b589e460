-- ===== src/Lib.antt =====
-- Verification library of the swap core of cantonbit: the service that swaps WBTC on an EVM chain
-- for CBTC on Canton by hash time locks (HTLC), and the service that swaps CBTC and CC on Canton.
--
-- How the program fits together. A client posts an order (lib/htlc-types.ts). The service
-- (lib/htlc-service-singleton.ts) moves it through its statuses: it is accepted against the solver's
-- balance, the user locks the main leg, the solver locks the counter leg, the user claims that with
-- the secret, and the solver claims the main leg with it; or the legs are refunded after their
-- timelocks. The orders are rows of one table (lib/htlc-order-store.ts), which requests, sweeps and
-- the solver's daemon write at the same time, each by a compare-and-swap on the status. The
-- Canton-to-Canton swaps have a table and a service of their own (lib/canton-swap-store.ts,
-- lib/canton-swap-service.ts), with the same kind of write, and a vault whose float is reserved by a
-- procedure of the database. Whether an order may be shown, completed, refunded or its secret handed
-- out is decided by pure modules that read the order only.
--
-- Which file models what:
--   Shared (Tests, Lists, Texts, Results): booleans, lists and texts (a string is its list of code
--     units), and calls that return or throw.
--   Htlc/Order: lib/htlc-types.ts. SwapOrder has each field of the source; a field that may be
--     missing is an Option; the status "open" is `opened`.
--   Htlc/Logic, Htlc/Create: lib/htlc-order-logic.ts (claim proofs, refund eligibility;
--     resolveCreateOrder). Children: Logic/Exclusive, Create/Terms, Create/Immutable.
--   Htlc/Invariants: lib/swap-product-invariants.ts. Child: Invariants/Completion.
--   Htlc/Visibility: lib/swap-order-visibility.ts. Child: Visibility/Drafts.
--   Htlc/Projector: lib/swap-status-projector.ts. Child: Projector/Truthful.
--   Service/Store: lib/htlc-order-store.ts, with the unique index of supabase/migrations/039 and the
--     reservation procedures of 040 and 042. The index of 031 asks no more than that of 039. A row is
--     kept as the order that is read back from it.
--   Service/Call: a request as the sequence of its accesses to the table (`must` is the source's
--     must, `put_then` is putIfStatus, whose error goes through, and `put` is the same where a
--     `catch` takes the error), and runs in which requests take turns access by access.
--   Service/Lock, Counter, Preimage, Claim, Record, Refund, Settle: the operations, each a
--     request. What the ledger, the chain, the price feed and the clock answer is an argument, so that
--     a statement for all arguments is one for all answers; so is the function keccak_256.
--   Service/Requests: the operations as one type.
--   Service/Diagram: the status diagram, written without reference to the code.
--   Service/Safe (Create, Lock, Counter, Claim, Record, Refund, Settle): what each request keeps
--     to. Service/Runs, Paths, Interleaved: what follows for runs.
--   Service/OfferIndex, TableLaws: the table alone.
--   Timelock: lib/htlc-timelock.ts and lib/swap-prepare-intent.ts. Children: Ladder, Intent.
--   LockGuard: lib/htlc-evm-lock-guard.ts. Child: Margin.
--   Quote: lib/htlc-quote-math.ts. Child: Bounds.
--   Amount: lib/amount-units.ts. Children: Digits, RoundTrip.
--   Legs: lib/swap-leg.ts. Child: Rules.
--   Limits: lib/swap-amount-limits.ts. Child: Caps.
--   C2c (Order, Logic, Create, Projector): lib/canton-swap-types.ts, lib/canton-swap-order-logic.ts,
--     and the parts of lib/swap-product-invariants.ts, lib/swap-order-visibility.ts and
--     lib/swap-status-projector.ts on Canton orders. Children: Logic/Expiry, Create/Replay,
--     Projector/Truthful.
--   C2c/Service/Store: lib/canton-swap-store.ts, with the reservation procedure of
--     supabase/migrations/040 and the unique indexes of 018 and 032. Children: Solvency, Race.
--   C2c/Service/Call: requests on that table and their runs, as in Service/Call; an error is its
--     message, because the service looks into messages, and what a `catch` does is passed on to each
--     place that may throw, with the order as it is in memory there.
--   C2c/Service/Create, Reserve, Fill, Settle, UserLeg, Filling, Sweep, Expire, Counter, Reissue:
--     lib/canton-swap-service.ts, operation by operation. Receipt: verifyCounterLegReceiptProof of
--     lib/canton-swap-settle.ts and lib/swap-settlement-messages.ts. Requests: all of them as one type.
--   C2c/Service/Diagram: the status diagram of each wallet mode, without reference to the code.
--   C2c/Service/Safe and its children: what each request keeps to. Rows, Runs, Interleaved: what
--     follows for the table.
--   Evidence/Ledger: lib/transfer-instruction-read.ts and lib/swap-transfer-memo.ts, with the events of
--     a transaction as records of the fields that the swap reads.
--   Evidence/Match, UserLeg, Delivery, Outcome: lib/canton-swap-leg-verify-logic.ts (when a transfer is
--     the leg's, parseUserLegEvidenceFromEvents, counter offers and deliveries,
--     buildLoopFillResultFromEvents). Children with theorems: Created, Offers, Sender,
--     Filled, Results.
--   Evidence/Fee: lib/network-fee-verify-logic.ts and capNetworkFeeAtOrder of
--     lib/canton-network-fee-math.ts. Children with theorems: FeeChange, FeeSend, FeeOffer, FeePaid.
--   Examples: runs at concrete inputs.
--
-- Bounds and fuel. Numbers are natural numbers: seconds, amounts in base units and prices are never
-- negative on these paths, and subtraction is written where the source has it. The source uses
-- bigint for amounts, so nothing wraps around. The digits of a number are printed with the number
-- itself plus one as fuel, which the round trip of Amount shows to be enough. No other function needs
-- fuel: the attempts of `accept` are counted down from two, as are those of `reserveSwapFloat`, the
-- looks at the ledger of a receipt are counted down from the number that the caller gives, and a run
-- ends with its schedule.
--
-- Not modelled: failures of the database connection (an access to the table always answers); the
-- sums of reserved balances inside the SQL procedures of the HTLC table, of which the comparison
-- is an answer (the sum over the Canton-to-Canton table is modelled, and what the HTLC orders hold
-- of it is an argument); the read of many rows by a sweep, which is one request for each row; the
-- operations of the service on Loop custody and delivery and on the managed lock of a reverse
-- order, and the sweeps over many orders; how a memo is encoded, and how a fee is estimated from
-- traffic; the calls to the ledger and the chain themselves (lib/canton.ts, lib/transfer.ts,
-- lib/htlc-onledger.ts, lib/swap-evm.ts); mint, redeem, sessions, the secret vault and the user
-- interface.
pub mod Shared
pub mod Legs
pub mod Limits
pub mod Htlc
pub mod Quote
pub mod Amount
pub mod C2c
pub mod Timelock
pub mod LockGuard
pub mod Service
pub mod Evidence
mod Examples
