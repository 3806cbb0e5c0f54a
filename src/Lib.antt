-- ===== src/Lib.antt =====
-- The domain rules of the agent workspace: what may happen to an action intent, a work item, a
-- conversation, a presence session and a run of a runner, and who may make it happen.
--
-- The program is a TypeScript application over a D1 database. Its domain modules (src/domain) are
-- pure functions: they take a snapshot of rows, decide, and return a new value or throw; the adapters
-- (src/adapters/d1) read the rows, ask the domain, and write with a statement that a version or a
-- token guards. Functions of the source keep their names here, in snake case; a thrown error is a
-- result `err`, with a constructor for the code that the error carries.
--
-- Governance/Intent: action intents (src/contracts/governance.ts,
-- src/domain/governance/action-intent.ts): the record and its types; Actions has one function for each
-- operation, and the other modules the well-formedness and the life of an intent, as a step relation
-- over all the operations.
--
-- Governance/Canonical: canonical JSON (src/domain/governance/canonical-json.ts) of a JSON value, with
-- the order in which an object lists its own keys; Laws, Order and Text
-- are on what the text binds, with Plain and Reorder on the keys of its objects.
-- Governance/Ledger: the hash chain (src/domain/governance/ledger.ts): append, verify, Chain on ledgers
-- that grew by appending, and Tamper on ledgers that verify.
--
-- Workflow: declared workflows and their runs (src/domain/workflows): Records has the exact records and
-- identifiers that the files share, Definition the evaluation of a declaration
-- (workflow-definition.ts), Run the initial run (workflow-run.ts), Snapshot the reading of a stored run
-- (workflow-run-snapshot.ts), with its regular expressions over states in Snapshot/Shape.
--
-- Artifacts: what the titles, notes, contents, reviews and supersessions of artifacts may be
-- (src/domain/artifacts); Trim, Trimmed, Size and Review are on what is
-- accepted.
--
-- Engine: execution engines (src/domain/runners/execution-engine.ts): Excerpts frames the two streams,
-- Base64 has the text of an excerpt, Contract and Streams the parts of a result and Result its parsing,
-- Probe what is known of an engine and the descriptor of its job, Input and Execute the call of an
-- engine, with the two readings of the clock as arguments, and Complete the body that completes a run,
-- with the codecs of the runtime as an argument.
--
-- Json: JSON values, which hold texts as lists of UTF-16 units; JSON.stringify in Print, and a reader in
-- Read, which is the independent description that the text is compared with.
--
-- WorkGraph: the transition tables of objectives and work items
-- (src/domain/work-graph/transitions.ts).
--
-- Collaboration: the guards of membership changes and pins (src/domain/collaboration/membership.ts).
--
-- Presence: leases of presence sessions (src/domain/presence/presence.ts); Presence/Store is the
-- compare-and-set of a session's row (src/adapters/d1/presence-repository.ts), with the row as state.
--
-- Runners: Liveness, Deadline (with prompt retention), Lease (the bodies of
-- src/domain/runners/lease-protocol.ts), Policy (src/domain/runners/admission-policy.ts), Latest
-- (the latest report of a runner), Declaration and Claim (src/domain/runners/claim-admission.ts),
-- Evidence and Inventory (src/domain/runners/engine-inventory-eligibility.ts) and EngineClaim
-- (src/domain/runners/engine-claim-admission.ts). A claim asks for the run's and the runner's
-- state, then for the declaration or the inventory, which ask for the latest report and its age.
--
-- Base has the shared lists, options, tests and results; Text the order of strings by UTF-16 units (in Faithful,
-- that the units fix the string) and the patterns of the source's regular expressions; Samples the data of the tests.
--
-- Runtime: what JavaScript does is a parameter. A `Dates` has `Date.parse` and `toISOString`; an
-- instant is its distance from the earliest one of a `Date`, so that it is a natural number, and NaN is
-- `none`. A hash is an argument (that of an intent's parameters may throw), and so are the classes of
-- characters that a display name may not have, and white space. Samples has a small calendar that is such a `Dates`.
--
-- Definitions are structural recursions, but for two with fuel in Json: the digits of n have fuel n + 1,
-- and the reader of a text has that of its caller, for which the size of the value read is enough.
-- Counts and times, and the numbers in JSON values, are natural numbers; where the source asks for safe
-- integers, so do the definitions. A JSON value has no cycles, getters, holes or `undefined`, which the
-- source refuses. Arguments that the source's types
-- rule out (a fraction as a token, a number as an id) have no counterpart.
--
-- Not modelled: the SQL of the other repositories, routes, the user interface and the runner program,
-- which are input and output around these rules; decision packages, the parsing of reports, and
-- the GitHub and provider domains.
pub mod Artifacts
pub mod Base
pub mod Collaboration
pub mod Engine
pub mod Governance
pub mod Json
pub mod Presence
pub mod Runners
pub mod Runtime
pub mod Samples
pub mod Text
pub mod WorkGraph
pub mod Workflow
