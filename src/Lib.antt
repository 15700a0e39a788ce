-- ===== src/Lib.antt =====
-- Verification of the smart contracts for tokenized real-world assets: the asset token, the
-- dividend contract, the registry and the compliance contract, four Soroban contracts that call each
-- other and the host.
--
-- Parts and files
--   contracts/asset-token/src/lib.rs is modelled in Token. Token/State.antt has the storage, one
--   field for each `DataKey`, and the internal helpers; Genesis, Transfers, Allowances, Supply and
--   Admin have the calls, each under the name of its Rust function; Calls has a call as data and
--   histories of calls. The other files of Token prove.
--   contracts/dividend/src/lib.rs is modelled in Dividend: State, Creation, Claims, Recovery, Admin
--   and Calls in the same way. The other files of Dividend prove.
--   contracts/registry/src/lib.rs is modelled in Registry: State, Assets, Admin, Pages and Calls;
--   Totals and Histories prove about the totals, Catalog, CatalogChanges, CatalogEntries and
--   CatalogHistories about the indexes, Authority and Paging about calls and pages.
--   contracts/compliance/src/lib.rs is modelled in Compliance: State has the storage and the pages
--   of the allowlist, Jurisdictions the normalized codes and the blocked list, Records the calls on
--   KYC records and holding periods, Checks `is_allowed`, Listing the reads of the allowlist,
--   Pruning `prune_expired`, Admin and Calls as in the others. Index, IndexDrop, IndexEnter,
--   IndexApprove, ScanSteps, IndexPrune and Histories prove about the pages, Books, BookEntries and
--   BookHistories about the records and the blocked jurisdictions, Thinning, PruneRuns and
--   PruneStuck about `prune_expired`, Codes, Allowed, Paging and Authority about the calls that
--   their names say.
--   Wired is the token whose questions to the compliance contract are answered by that model;
--   Wired/Payments.antt has the dividend contract beside an asset token that carries out its
--   payments, as a relation between the states before and after a call of either.
--   fuzz/fuzz_targets is modelled in Fuzz, each target as a program that runs the models above:
--   compliance_jurisdiction_race.rs in Race, compliance_is_allowed.rs in IsAllowed,
--   compliance_expiry.rs in Expiry, compliance_batch_allowlist.rs in Batch; the copy of
--   `transfer_batch` of asset_token_transfer_batch.rs in Mirror and its checks in Conserve;
--   dividend_arithmetic.rs in Arithmetic; what they share in Harness. The files whose names end in
--   Runs prove about the target before it, with Oracle, BatchEntries, MirrorSteps and Sums; Refines
--   compares Mirror with the contract.
--   Base has what they share: the integers, the storage maps, texts, slices of a list, how often an
--   address stands in a list, and the results of a call.
--   Each part has a private Tests module, which runs it on concrete states.
--
-- How the code is modelled
--   A call is a function of what it sees of the host (`Env`), its arguments and the storage. It
--   returns the new storage, or a failure: a code of the contract's `Error`, or a trap of the host.
--   A failed call has no new storage, since the host discards what it wrote; a history (`run`)
--   continues with the old one. Longer functions are split where a Rust block ends, and the parts
--   are composed in the order of the code.
--   `i128` is an integer with the checks of `checked_add`, `checked_sub` and `checked_mul`; a plain
--   operation on it traps on overflow, as Cargo.toml asks for. `u64` and `u32` are natural numbers;
--   the increments of a counter trap at 2^64, and the saturating operations saturate. Amounts that
--   a caller passes are integers of any size. An address is a number, a `String` its bytes.
--   The counters of `prune_expired` and of the allowlist's reads are plain natural numbers: each is
--   at most the number of listed addresses, which the count, a `u32`, is never below.
--   A run of a fuzz target returns `none` where the target panics: at a failed assertion, a failed
--   call of the client without `try_`, or an overflow. Its input is any input of its type, and its
--   loops are as long as the input. A new test host authorizes every call.
--   Loops are recursion on a list or on the number of rounds; there is no fuel.
--
-- What is a parameter
--   Other contracts and the host: who has authorized a call, the ledger sequence, what the
--   compliance contract answers to `is_allowed` (except in Wired), what an asset token answers to
--   `total_supply` and for its admin, and whether a payment token carries out a transfer (except,
--   for one token, in Wired/Payments.antt, where its `transfer` is run). They are fields of `Env`,
--   and each call of a history may see others. That a payment token moves exactly the amount it is
--   asked to move is how the payments of the dividend contract are read as an escrow; for an asset
--   token Wired/Payments.antt has it from the code.
--   In Fuzz, the addresses that the test host generates and the ledger sequence at which it starts.
--
-- What is not modelled
--   Extending the lifetime of an entry, and entries that the host has archived; `version`; calls
--   back into a contract while it runs, which the host forbids; the unit tests, the
--   `main` of the fuzz targets, which turns bytes into inputs, and the scripts.
pub mod Base
pub mod Token
pub mod Dividend
pub mod Registry
pub mod Compliance
pub mod Wired
pub mod Fuzz
