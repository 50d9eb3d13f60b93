-- ===== src/Lib.antt =====
-- Verification of DeskPilot: the parts of its backend that decide what a Tool may do, and that
-- keep tasks and commits consistent. Paths below are under backend/src/deskpilot.
--
-- A task asks for Tool calls. The policy engine judges each call as a structured request, and a
-- call that is allowed, or approved by the user, gets a grant: a sealed binding of the call's
-- facts. The control plane sends the call to the Runner in a signed message with the grant. The
-- Runner verifies the message, rebuilds the request from its own registry, compares it with the
-- grant, and only then runs the Tool; an effect on the file system goes through the journal of
-- controlled commits. The task records what happens as numbered events, each with an outbox
-- message for the transport.
--
--   Base           names that the modules share, lists over native numbers, Boolean tests.
--   Base/Text      comparison of texts, sets of texts as sorted lists.
--   Base/Json      the JSON values that core/canonical_json.py digests. SHA-256 over the canonical
--                  form is the parameter `Hashing`: a function from values to 64 hexadecimal
--                  digits. That it has no collision is nowhere assumed; where a property rests on
--                  it, the property gives a collision.
--   Base/Result    exceptions as values.
--   Policy         domain/policy.py and application/policy_engine.py. Risk: levels and effects.
--                  Resource, Request: the models with their validators. Engine: the engine's
--                  `evaluate`, whose branches are `judge` and `graded`. Grant:
--                  ToolAuthorizationGrant. Decisions, Verdicts, Scope, Normal, Injective and
--                  Grant/Integrity are about them.
--   Runner/Ipc     runner/ipc_protocol.py: messages, InMemoryReplayGuard, IpcVerifier. The
--                  verifier's state is passed on; the HMAC is a function of the verifier. The
--                  validators of the messages: Validators.
--   Runner/Registry       domain/tool_contracts.py and application/tool_registry.py. A model of
--                  Pydantic is a function that validates, or fails with `none`.
--   Runner/Authorization  runner/authorization.py: ToolCallAuthorizer.
--   Runner/Receipt domain/tool_commit.py: the receipts of commits and their validators.
--   Runner/Journal runner/commit_receipts.py: the journal. The SQLite table is the list of
--                  its rows, and a statement its effect on them; a transaction that raises leaves
--                  the table. Journal/Operations: the queries, and runs of the calls.
--   Tasks          application/task_service.py with the states of domain/schemas.py and
--                  domain/approvals.py: a task with its events, outbox, checkpoint, approvals and
--                  calls; append_event, transition_task and cancel_task, and runs of these three: the other
--                  calls of the service that write to a task are not in such runs. Fresh UUIDs and the clock
--                  are given by the environment, per event.
--   Outbox         application/outbox_publisher.py over the table of infrastructure/models.py: the
--                  claims of a batch by single updates (as on SQLite), mark_published,
--                  mark_failed, requeue_dead_letter and cleanup_published, for any number of
--                  publishers that share the table. An `UPDATE … WHERE` is a map over the rows.
--                  Publisher: the claims. Marks: what follows a claim.
--   Admission      application/effect_dag_admission.py: the limits and counters, the queues of
--                  waiters and the ring of graphs; the operations as they run under the lock. The
--                  futures of waiters are the outcomes in the state. Calls: runs of the calls.
--   Effects        the durable graphs of effects of application/task_service.py, v2 (DAGs).
--                  Definitions: domain/effect_graph.py and `_validate_effect_dag`, with Edges,
--                  Accumulation, Search, Ranking and Valid about it. Leases and Fences: the leases of
--                  a graph; a call reads a row and updates the row that is there then, so that calls
--                  interleave. Dag: the rows of a DAG, with what the calls below share. Create:
--                  `create_effect_dag`. Decisions: `record_effect_dag_branch_decision`. Reduce:
--                  `reduce_effect_dag`, with Closure, Turns, Rounds and Verdict about it.
--                  Compensation, Claims: the plans of a compensation, the claims of its waves, and
--                  their reduction; Admissions: the proofs of admission that a claim carries. Nodes:
--                  `transition_claimed_effect_node`, `renew_effect_dag_node_claim` and
--                  `request_effect_dag_cancel`. Ready: the tables that project the ready nodes and
--                  their rebuild, with ReadySet (`_build_effect_ready_set`), Upkeep, Transitions,
--                  Branches and Expiry (how they are kept along with the events), and Counters,
--                  Recount, Moved, Resolved, Settled, Reached and Listed about the counters, Heads,
--                  Total, Kept and Open about the upkeep as a whole. The other calls leave the upkeep
--                  out, which is a last step of theirs. These calls hold the task's lock and are one
--                  transaction: a call that raises leaves the rows.
--   Tests          runs on concrete values, and the theorems applied to them.
--
-- Times and durations are natural numbers (microseconds), lists of texts stand for tuples, and
-- identifiers with a fixed prefix are kept without it where the code computes them or its pattern
-- fixes it. The class `\d` of the regular expressions is a parameter. All functions
-- are by structural recursion; the outer loop of the admission runs on the number of free slots,
-- each round that goes on taking one, which Admission.Fuel shows to be enough. The search for a cycle
-- and the rounds of a reduction run on the number of nodes (the latter on one more), and the waves
-- of a compensation on the number of nodes to compensate: Search, Rounds and Waves show that these
-- are enough.
--
-- Not modelled: the transports, the processes and the sandbox of the Runner, the model providers
-- and their configuration, the HTTP API, the database layer and its migrations, the frontend, and
-- of the task service what is not named above: of the effect graphs, the pages of the ready set
-- and their checkpoints, the claims of ready nodes, and the dispatchers.
pub mod Base
pub mod Policy
pub mod Runner
pub mod Tasks
pub mod Outbox
pub mod Admission
pub mod Effects
mod Tests
