-- ===== src/Lib.antt =====
-- Threvo Actions: governed actions of agents. A host prepares a proposal, authorities decide on it,
-- the runtime executes its effect at most once while the authority holds, and verifies the outcome.
--
-- The parts, and the files that model them (paths are from the repository's root):
--   src/threvo_actions/models.py, receipts.py, registry.py: Model, Receipts, Registry. Records for
--     the pydantic models and data types for the enumerations. A port of a host (authorization,
--     preparation, executor, verifier, codec, commitment provider) is a field of `ActionDefinition`: a
--     function of the moment at which it is asked, which may answer anything or raise.
--     Registry/Results has the validators of a host's answers, Registry/Lookup the `ActionRegistry`.
--   src/threvo_actions/canonical.py: Canonical, over Json. Unicode normalisation, UTF-8 and
--     `json.dumps` are the parameter `Platform`; the last two may raise. Canonical/Framing is about
--     what a commitment binds, Canonical/Mapped and Normal about the normal form, with Canonical/Fields
--     for the fields of an object.
--   src/threvo_actions/authority.py: Authority. src/threvo_actions/approvals.py: Approvals.
--   src/threvo_actions/evidence.py: Evidence; `model_dump` and SHA-256 are the parameter `Exporter`.
--     Evidence/Validate judges a bundle; Evidence/Consistency and Runtime/Export are about the verdict
--     on an exported one.
--   src/threvo_actions/recovery.py: Recovery, the condition, the recommended step and the views, and
--     Worker, the `RecoveryWorker`: Worker/Completions, Completing and Dispositions are about what it
--     tells its schedule, Worker/Scan about the loop over the pages, Worker/Progress about its end,
--     and Worker/Calls about what it makes the runtime do.
--   src/threvo_actions/attribution.py: Attribution, the bytes of the package digest.
--   src/threvo_actions/stores/base.py: Proposal (the record, the lifecycle graph and the erasure
--     transitions) and Proposal/Validate (the validators); Proposal/Advance and Proposal/Append are
--     lemmas on what the validators accept.
--   src/threvo_actions/stores/memory.py: Store. A method is a function on the state, since it runs
--     under one lock; `run` makes any interleaving of tasks a sequence of calls. Store/Effect says what
--     a call may do, Store/Soundness, History, Admission and Erasure what follows; Store/Board is the
--     abstract board of statuses and claims that the store refines.
--   src/threvo_actions/runtime.py: Lifecycle and Reason for its vocabulary, and Runtime: Common,
--     Prepare, Decide (`record_authority`, `expire_due`), Settle, Execute, Reconcile
--     (`reconcile`, `resume_verification`), Erase and Read (`read`, `read_recovery`,
--     `export_evidence`, `observation_context`). An operation is a task of Exec: it passes a world
--     of the store, a count of the questions asked and a trace of the calls that a host can observe,
--     and it returns or raises with the world as it is then. At each call of the store the environment
--     lets other tasks make any calls first, and lets the adapter lose the request or the answer.
--     Exec/Keeps, Leads, Returns, Ends, Finds, Total and Alone are rules for such tasks. Runtime/Walk and
--     Runtime/Stability carry an invariant through every operation, and Runtime/Admission, Session,
--     Exclusion, Settlement, Answers, Compensation, Reading and Advice draw the conclusions.
--   Tests and its children evaluate the code on concrete inputs.
--
-- An instant is a natural number of microseconds and a duration is not negative; the comparisons of
-- `datetime` values are those of these numbers. One loop runs on fuel, that of the worker's `scan`: a
-- source whose cursors advance through a ranking needs one more than the rank of the start. All others
-- go over a list that they are given. The model's integers do not wrap, as Python's do not.
--
-- Not modelled: the HTML page of an evidence bundle and the way back from a serialized one, the facade
-- that binds hosts' decorators, the SQL stores and migrations, the integrations, the command line and
-- the test kits, and what pydantic checks of a model's fields before an operation receives it (so the
-- operations are studied on more inputs than can occur). What pydantic checks when `prepare` constructs
-- a record is the parameter `construct` of the environment, which may raise.
pub mod Prelude
pub mod Model
pub mod Json
pub mod Result
pub mod Canonical
pub mod Authority
pub mod Receipts
pub mod Proposal
pub mod Store
pub mod Registry
pub mod Exec
pub mod Lifecycle
pub mod Runtime
pub mod Reason
pub mod Evidence
pub mod Attribution
pub mod Recovery
pub mod Worker
pub mod Approvals
pub mod Tests
