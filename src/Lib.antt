-- ===== src/Lib.antt =====
-- Verification of the Harmony migration tools: the Python code that turns a ledger of claims into
-- committed lists and pays them out.
--
-- The parts of the program, and the files that model them:
--
-- - airdrop/tools/common.py, the batch tree (`hash_pair`, `tree_levels`, `tree_root`, `tree_proof`,
--   `tree_verify`), and bridge-claims/tools/claim_tree.py (`levels`, `leaf`): Airdrop/BatchTree.antt.
--   The list of recipients is cut into batches, whose hashes are the leaves; the contract keeps the
--   root, and pays a batch that comes with a proof. A `bytes` value is the list of its bytes.
-- - The encodings of airdrop/tools/common.py (`_word`, `abi_encode_batch`) and claim_tree.py
--   (`encode_row`): Abi/Words.antt and Abi/Batch.antt, over the bytes of Abi/Bytes.antt. An address is
--   its 20 bytes.
-- - The list of airdrop/tools/common.py (`consolidate`, `chunk`) and the commitment that `write_run`
--   makes to it (`batch_leaf`): Airdrop/Recipients.antt and Airdrop/Run.antt.
-- - airdrop/tools/safe_batch.py: Safe/MultiSend.antt (the call data and its decoding) and
--   Safe/Transactions.antt (`split_sizes`, `transfers_tx`, `build_transactions`, and the hashes that
--   the signers sign); `multisend_calls` of airdrop/tools/vault_batch.py stands in the first. Where a
--   list is paid by a Safe and not through the airdrop contract, these are its transactions.
-- - airdrop/tools/vault_batch.py: Vault/Calls.antt (the call data of deployments and deposits and its
--   decoding), Vault/Assembly.antt (`assemble_vaults`, `check_recipients`) and Vault/Plan.antt
--   (`deploy_txs`, `fund_txs`, `plan_transactions`). It pays the shares that the routing leaves in
--   validators' vaults.
-- - bridge-claims/tools/release_plan.py: Release/OneSplit.antt (`one_split`, which reads the summaries
--   that the bridge allocations write) and Release/Owners.antt (`owner_setup_calls`,
--   `custody_problems`).
-- - toolkit/scripts/routing/apply-routes.py: Routing/ProRata.antt (`pro_rata`),
--   Routing/Destinations.antt (`resolve_destination`) and Routing/Compile.antt (the loop of `main`
--   that compiles each claim's routes into wallet rows and share rows). The routing decides where
--   each claim of the ledger goes; its rows are the lists that the airdrop commits.
-- - toolkit/scripts/census/account-balance-merge.py: Census/Merge.antt (`account_rows`, and the loop
--   of `merge` as `pair_up`, `count` and `merge_rounds`). It gives each account its balances on both
--   shards, from which the ledger of claims is built.
-- - toolkit/scripts/claims/actual-supply-ledger.py: Claims/Ledger.antt (the loop of `merge`) and
--   Claims/Ledger/Receipts.antt (`rows`, `load_pending_receipts`, and `merge` from its sources as
--   `merge_ledger_sources`). It merges the balances of both shards, the staking and the pending receipts
--   into the ledger of claims.
-- - toolkit/scripts/claims/filter-claims-by-one.py: Claims/Threshold.antt (the loop of `main`:
--   `check_row`, `is_included`, `add_row`, `filter_rows`). It keeps the claims over the minimum.
-- - toolkit/scripts/bridge/build-bridge-allocations.py and `reserved_address_reason` of
--   toolkit/scripts/bridge/bridge_lib.py: Bridge/Allocations.antt (`build_pool`, `status_for`,
--   `contract_elsewhere`, and the claim lists of `main` as `add_claims`). It shares the collateral of
--   a bridge pool among the holders of its token.
-- - `deployment_block`, `logs` and `_logs_range` of toolkit/scripts/bridge/bridge_lib.py, and
--   `first_block_at_or_after` of toolkit/scripts/archive/archive_lib.py: Chain/Search.antt and
--   Chain/Logs.antt, with the node's answers as parameters. The bridge tools find by them the events
--   and balances that the allocations start from.
-- - toolkit/scripts/cutoff/receipt_provenance.py: Cutoff/Provenance.antt (`provenance_problems`) and
--   Cutoff/Provenance/Comparison.antt (`comparison`, `independent_report_problems`, `evaluate`). It
--   decides whether the report of the receipts that are pending between the shards can be used.
--
-- Base holds what the parts share: Boolean tests, lists measured by native numbers, Python's
-- integers, results for code that raises, the interface `Ordered` of keys with instances for texts,
-- numbers, integers and tuples, Python's `sorted` and `dict`.
--
-- Bounds and fuel: the loop of `tree_levels` has the number of leaves as its fuel; each round
-- halves the level, so it ends before. The searches and the fetching of logs have the length of the
-- range of blocks as their fuel, which every round shortens; `decode_multisend` has the length of its
-- data, of which every round takes 85 bytes or more, `chunk` the length of the list, and the loop of
-- the ledger the number of its sources' rows, of which every round takes one or more. All other
-- loops are recursions on a list.
--
-- Not modelled: `keccak256` is a parameter, since the code takes pycryptodome's where it is
-- installed, and so are the normalizing of an address in the bridge tools, the answers of a node,
-- the selectors of calls and the `addOwnerWithThreshold` of a Safe; decode_vault_tx, release_calls
-- and the queries of airdrop/tools and bridge-claims/tools, the exchange, forensics and contract
-- tools, files, JSON, CSV parsing, RPC calls and the process pool of claim_tree.py are left out,
-- and so are the Go programs, which read databases.
pub mod Base
pub mod Abi
pub mod Safe
pub mod Vault
pub mod Airdrop
pub mod Routing
pub mod Census
pub mod Claims
pub mod Bridge
pub mod Release
pub mod Chain
pub mod Cutoff
