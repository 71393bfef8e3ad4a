-- ===== src/Lib.antt =====
-- Token Terminator, as a library of models and theorems in a cubical type theory.
--
-- The program (src/rtk_hermes_plus) sits between an agent and its model provider and makes what goes
-- to the model smaller, under one rule: a text is replaced only by a shorter one, and only once the
-- exact text can be recovered from a private vault. Its handlers share one SQLite store and one set of
-- counters, and fail open: whatever goes wrong, the host gets its original text.
--
-- The parts, and where they are modelled:
-- * Vault models src/rtk_hermes_plus/storage.py. Vault/Tables has the tables as lists of rows, Vault/Put
--   has put_artifact with _prune_for_insert, and get_artifact, Vault/Pages has read_artifact, Vault/Leases
--   has record_exposure, claim_exposure and exposure_available, Vault/Savings has record_request_metric with
--   its trigger, and the sums of counts. A write transaction is one step that commits or leaves the
--   tables as they were, so calls of several threads are sequences of steps.
-- * Metrics models src/rtk_hermes_plus/metrics.py, and Host is the store and the counters together, which
--   the handlers pass along as a state (Common/Actions).
-- * Temporal models TemporalDeltaReducer of src/rtk_hermes_plus/temporal.py: a repeated terminal result is
--   replaced by its difference from the last one. It stores and reads back the new result (Vault/Put),
--   remembers it as a snapshot, which pins it, and records the exposure (Vault/Leases).
-- * Compress models src/rtk_hermes_plus/compress.py: compact_text, RecoveryStore.write, and the acceptance
--   of a compacted result, NativeCompressor.transform and _finalize_transform.
-- * Graph models WorkingStateGraph of src/rtk_hermes_plus/graph.py: Graph/Terms and Graph/Steps have the
--   operations on the dictionaries, _normalize_and_simulate, and Graph/Log has the tables, apply, events
--   and replay. Json has the values that operations and requests are made of.
-- * Rewrite models RewriteCache and Rewriter.rewrite of src/rtk_hermes_plus/rewrite.py.
-- * Accounting models RequestTokenAccounting of src/rtk_hermes_plus/token_accounting.py, over the request
--   metrics of Vault/Savings.
-- * Compiler models RequestCompiler of src/rtk_hermes_plus/compiler.py: Compiler/Slots finds the tool results
--   of a request, and Compiler/Request stores them (Vault/Put), replaces repeated and used-up ones by
--   receipts under their leases (Vault/Leases), adds the working-state block, and accepts the result.
-- * Compactor models ContextCompactor of src/rtk_hermes_plus/context_compactor.py: Compactor/Turns finds the
--   turns of a conversation, Compactor/Vaulting puts the tool results of old turns into the vault,
--   Compactor/Collapse folds old turns into lines, and Compactor/Request is compact, which accepts the result.
-- * Cancellation models CancellationToken of src/rtk_hermes_plus/cancellation.py: Cancellation/Token has what a
--   call of wait or cancel does under the lock, and what an event loop runs, and Cancellation/Runs their
--   interleavings.
-- * Budget models the counting of tokens: Budget/Models and Budget/Measure are TokenBudgetAdapter of
--   src/rtk_hermes_plus/token_budget.py, Budget/Gates the gates of src/rtk_hermes_plus/enhancements.py around
--   the compiler and the compactor, and Budget/Omissions is input_budget and _minimum_omissions of
--   src/rtk_hermes_plus/chat_target.py.
-- * Runtime models Runtime.llm_request_middleware of src/rtk_hermes_plus/plugin.py: the compiler, the compactor,
--   the metric of the request (Vault/Savings) and the exposures of what it refers to (Vault/Leases), in one
--   call. The two optional reducers, src/rtk_hermes_plus/jev_context.py and src/rtk_hermes_plus/context_ir.py,
--   are parameters, and what they do where they are not enabled is modelled.
-- * Guards models src/rtk_hermes_plus/context_safety.py, whose vetoes the omissions ask for.
-- * Views models src/rtk_hermes_plus/recovery_views.py: a search and a synopsis of one artifact of the vault.
-- * Scope models conversational_request of src/rtk_hermes_plus/call_scope.py.
--
-- Conventions. Python's str is the native String, len(s) is count, len(s.encode()) is len. An int that
-- the code keeps at zero or more is a natural number. An exception is a value of Common/Raises; its
-- message is dropped. A clock's reading (_utc_now, monotonic) and a fresh uuid are arguments.
-- Parameters stand for hashlib's digest, json.dumps, json.loads, str of a value, difflib's unified diff,
-- Unicode's upper and lower and its classes of characters, the tokenizers, and the text of a rounded percentage; no
-- theorem assumes more of them than it says.
--
-- Bounds and fuel. The loops are structural, except the reader of pages, Vault.Pages.read_pages, whose
-- fuel is the number of pages: one more than the characters that are left is enough, since each page
-- but the last has at least one; and the compactor's loop over old turns, Compactor.Collapse.collapse_loop,
-- whose fuel is one more than the number of messages. The limits of the program (1,000 nodes, 2,000 edges, 100 operations,
-- 100,000 events) are written as they are.
--
-- Not modelled: the SQLite connections, migrations and search, which are input and output; the asyncio
-- forms, the dashboard, the command line and the scripts, which are glue; the learned policy, which is
-- floating-point training; the history engine and the
-- skill gate, which are separate features.
pub mod Common
pub mod Json
pub mod Graph
pub mod Rewrite
pub mod Scope
pub mod Accounting
pub mod Compiler
pub mod Vault
pub mod Metrics
pub mod Host
pub mod Temporal
pub mod Compress
pub mod Compactor
pub mod Cancellation
pub mod Guards
pub mod Budget
pub mod Views
pub mod Runtime
mod Examples
