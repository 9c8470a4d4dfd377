-- ===== src/Lib.antt =====
-- ProofOps takes an alert to a verified remediation through agents that propose and a control plane
-- that decides. This library models the control plane, the Python services of backend/app/services
-- with the contracts of backend/app/contracts that they validate their data by.
--
-- How the parts interact. The correlator groups alerts into incidents. An incident is a run of the
-- state machine; the pipeline moves it with `advance`, and a clock moves it with `sweep`. A proposed
-- action passes the validator and the policy engine, whose verdict sends the run to APPROVED,
-- AWAITING_APPROVAL or BLOCKED. An approval is a request in the approval queue with a signed token whose
-- nonce is consumed once; the queue decides and expires it, mints one permit for it and hands the
-- approved action to the orchestrator. A token that was not handed to a person waits in memory to be
-- collected. The executor changes a snapshot of the service, the verifier judges what it left, and a bad
-- verdict asks for a rollback past the same two gates. A run executes only on a permit, once for each
-- idempotency key. What the state machine records is appended to the incident's audit chain, which is
-- saved, loaded and verified as a whole, and each event is published to the live readers. The
-- conversation about an incident is a thread of bounded length.
--
--   Common     results, exceptions with state, what holds after a step, lists and texts
--   Contracts  backend/app/contracts: enums, identifiers, JSON values, actions
--   Fsm        backend/app/services/fsm.py
--     Run        the run, the permit, the rejections, `new_run`
--     Advance    `advance` and `sweep`, one function for each step of their bodies
--     Edge, Log  lemmas on the body of `advance` and its outcome on each branch
--     Once       `execute_once`, `handoff` and `audit_records`
--     Reach      the calls as a step relation on runs
--     Bounds, Trail, Permits, Sweep, OnceLaws   the properties
--   Audit      backend/app/services/audit.py and backend/app/contracts/audit.py
--     Event      the event and the validators of its contract
--     Chain      `emit` and the hash link
--     Verify     `verify`, `save` and `load`
--     Integrity, Emit, Tamper, Reload   the properties
--     FsmRecords `record_fsm`, which appends what the state machine recorded
--   EventBus   backend/app/services/eventbus.py
--     Queue      `Subscription`: the bounded queue, and what its loop has yet to run
--     Bus        `EventBus`: the buckets of subscriptions
--     Backlog, Buckets, Fanout   the properties
--   Budgets    backend/app/services/budgets.py
--     Ledger     the counts of a ledger and `assert_budgets`
--     Gate       lemmas on both
--   Evidence   backend/app/services/evidence.py, backend/app/contracts/evidence.py and the claims of
--              backend/app/contracts/hypothesis.py
--     Record     evidence and claims
--     Gate       freshness, trust and `must_cite_coverage`, a fraction kept as two numbers
--     Coverage   the property
--   Policy     backend/app/services/policy.py and backend/app/contracts/policy.py
--     Bundle     `validate_bundle` and the match of a rule
--     Engine     the pieces of `_evaluate`: risk, actor, blast radius, obligations
--     Evaluate   `_evaluate`, `evaluate`, the seal and the loaders
--     Decisions  the properties
--   Execution  backend/app/services/sandbox.py, verifier.py and rollback.py
--     Numbers    floats, signed integers and the casts of Python
--     Sandbox    `apply` on the snapshot of a service
--     Verifier   `verify`: the checks and the verdict
--     Rollback   `should_rollback` and `rollback_for`
--     Restore, Verdicts   the properties
--   Validator  backend/app/services/validator.py
--     Patterns   the two regular expressions that are character tests
--     Scan       `_scan_param_values`, the loop over a stack
--     Rules      `validate_action`
--     Search, Accept   the properties
--   Pipeline   backend/app/services/pipeline.py
--     Desk       the run, the chain and the calls of the executor, and the helpers of the file
--     Stages     `run_pipeline` from the alert to the permit
--     Report     the report, and the filter of the issues of a rollback
--     Perform    execution, verification, rollback and outcome
--     Conduct    `run_pipeline` and `resume_from_approval`
--     Steps, Gate, Grants   what a step keeps and what a stage that passes establishes
--     Outcomes, Reports   the properties
--   Correlator backend/app/services/correlator.py
--     Alert      what is read of an alert, and `deduplicate`
--     Signals    the fingerprint, the deploy window, the similarity, the topology and the severity
--     Group      `correlate`
--     Duplicates, Coverage, Partition, Members, Account   the properties
--   Conversation  backend/app/services/conversation.py
--     Thread     turns, the names of the files, `read_thread` and `append_turn`
--     Retained   the property
--   Delivery   backend/app/services/token_delivery.py
--     Hold       the tokens that wait to be collected, in the order of the dict
--     Single, Capacity   the properties
--   Queue      backend/app/routers/approvals.py, the part below the HTTP handlers
--     Entry      the entry, the exceptions, the state of the module and what is given to it
--     Store      `save_store`, `load_store` and `_entry`
--     Permit     `approved_action`, `verified_permit` and `_trigger_resume`
--     Decide     `request_approval`, `approval_view`, `_idem`, `reject_approval`, `sweep_approvals`
--     Approve    `approve_approval`
--     Status, Moves, Walk, Paths, Calls, Rounds   what each call does to the entries
--     Returns, Quiet   what a step that returns has found, and what a mint leaves alone
--     History, Grants, Mint, Spend, Resume, Silent   the properties
--   Approval   backend/app/services/approval.py and backend/app/contracts/approval.py
--     Nonces     `NonceStore`: the used set, the order, the log's whole lines and what stands behind
--                them, and what the disk does
--     Token      `issue` and `verify`
--     Single, Restart, Evict, Grant   the properties
--
-- Conventions. An object that a method changes is passed in and out: `Exec` gives the outcome, a value
-- or the exception, and the object as the code leaves it, after an exception too. Times are whole
-- ticks of one clock. JSON and YAML documents are the data type `Value`. Integers are natural
-- numbers; where the code subtracts, a clock that has gone back counts as no time passed. Every
-- recursion is on a list or a document, but for the validator's loop over a stack: its fuel is the
-- number of values in the document, and each turn takes one of them.
--
-- Parameters. SHA-256 and canonical JSON are the record `Codec`, one line of the saved file is the
-- record `LineCodec`, Python's `str` of a value that is no text is `repr`, and the digest of a sealed
-- document is `digest`. Nothing is assumed of them but what a theorem's own hypotheses say.
-- Floats are the record `Floats`, `int` and `str` of Python the record `Casts`, and the regular
-- expression of destructive SQL is `sql`. What the conductor calls besides the modelled services, the
-- agents, the loaders, the live tier and the approvals router, are fields of `Case` and `Services`;
-- the router's calls may change the audit chain and nothing else of a run.
-- What JSON keeps of a value of a turn is `stored`, and `is_alnum` is `str.isalnum` of a character.
-- The floats of an error rate, `float` and `str` are the record `Measures` of Correlator.Signals;
-- a similarity above 0.7 is compared as two whole numbers.
-- Those of the queue are the record `Services` of Queue.Entry: the readers and writers of the two
-- contracts, `sorted` for the key order of JSON, and whether a save succeeds and the worker runs;
-- its times are microseconds, and a call reads the clock once. The text of an audit event keeps its fixed part.
-- HMAC, the hash of the parameters and the ISO text of a time are the record `Signing`. `limit` stands
-- for MAX_NONCES, 100000 in the code, and the theorems hold for every limit. What the disk does in a
-- call is an argument: a line may be written whole, in part or not at all.
--
-- Not modelled: the agents and the language models they call, the HTTP handlers, the orchestrator's
-- loop, the intake of raw alerts, retrieval, the database, the adapters for Kubernetes and Prometheus,
-- offline evaluation and the web client, which are planned, lie outside the control plane or are calls
-- of other systems. Locks and file renames count as one step.
pub mod Common
pub mod Budgets
pub mod Contracts
pub mod Queue
pub mod Correlator
pub mod Delivery
pub mod Conversation
pub mod EventBus
pub mod Evidence
pub mod Execution
pub mod Fsm
pub mod Approval
pub mod Audit
pub mod Pipeline
pub mod Policy
pub mod Validator
