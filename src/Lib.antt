-- ===== src/Lib.antt =====
-- The Core of CodePilot: the state of a task and its plan, the reducer that takes each observation,
-- command and decision into it, and the policy that chooses what a run does next. And the gate in
-- front of its tools: permissions, approvals, and the attempts at calls that wait for them.
--
-- How the parts interact. A run of src/codepilot/core/driver.py hands each observation to
-- `reduce_observation` (src/codepilot/core/reducer.py), asks `CorePolicy.decide`
-- (src/codepilot/core/policy.py) for a decision on the new state, and takes that back into the state
-- with `apply_decision`. All values are frozen dataclasses: each operation gives a new state and
-- domain events, and each construction runs the checks of `__post_init__`. The model does the same:
-- an operation is a function into `Result`, the reduction or the error that the code raises, and
-- every `replace` or constructor call is a call of the `init_` function of the class.
--
-- A batch of tool calls goes to the tool runtime (src/codepilot/tools/runtime.py). It puts an attempt
-- for each call into a store (src/codepilot/tools/state.py), asks the permission engine
-- (src/codepilot/tools/security.py), and either lets the call run or shows the user a challenge; the
-- user's answer finds the attempt again. The store is passed along, and what raises is an error of
-- `Result`. The store's methods hold one lock each, so that threads are a sequence of its operations.
--
-- Which file models which part:
--   Base, Text        tuples, `dict.fromkeys`, sorting, results; the methods of `str` that the Core
--                     uses, on strings of characters
--   Literals          the `Literal` types of the core and of tools/results.py
--   Plan, State       src/codepilot/core/plan.py and src/codepilot/core/state.py: the records (Types)
--                     and their checks; Plan/Validity and State/Texts hold their laws
--   Commands, Observations, Events, Contracts
--                     src/codepilot/core/commands.py, observations.py, events.py and the decisions of
--                     contracts.py
--   Tools             what the Core reads of src/codepilot/tools/results.py, tools/security.py and
--                     protocols/conversation.py
--   Reducer           src/codepilot/core/reducer.py: Facts (blockers, failures, ledger, loop guards),
--                     Evidence, Steps, Replies (answers to commands and the tests before the work),
--                     PlanCommands and Approvals (one function per command), Commands (dispatch),
--                     Workspace and ToolBatch (`_reduce_tools`), Observe (the other observations),
--                     Decision (`apply_decision`). Proofs: Once, Guards, Lifecycle, and the children
--                     of Facts, Steps, PlanCommands, Observe, Workspace and ToolBatch
--   Policy            src/codepilot/core/policy.py: one function for each early return of `decide`
--                     (Gates holds the first of them, Tests the questions they ask);
--                     proofs in Safety, Limits, Quiet, Success, Confirm and Closeout
--   Security          src/codepilot/tools/security.py: Types, Permissions (the tests before the rules),
--                     Rules (`_matched_rule`), Engine (`decide`), Grants (challenges and grants);
--                     proofs in Rules/Order, Rules/Strictest and Engine/Allowed
--   Attempts          src/codepilot/tools/state.py: Types, Transitions (the life of an attempt) and
--                     Store (`InMemoryToolStateStore`); proofs in their children
--   ToolRuntime       src/codepilot/tools/runtime.py: Prepare (`_prepare`) and Resume
--                     (`_resume_approval`), Registry (`ToolRegistry.materialize`), Requests
--                     (`ToolExecutionRequest.__post_init__`), Types with `_transition`, `_settle`
--                     and the results that the runtime builds, each of which runs the checks of
--                     ToolError and ToolResult of Tools; proofs in Moves, in Results (which results
--                     pass those checks) and in the children
--   Driver            src/codepilot/core/driver.py with transcript.py and tool_step.py: Transcript (the open
--                     calls), ToolStep (results that the Core makes), Batch (`_complete_results`),
--                     Boundaries (journals, `_commit_boundary`, the loop up to its decision, its ends,
--                     `_terminate_interrupted_execution`); proofs in their children
--   Scenarios         a small task and a small tool on which each theorem is
--                     applied, and tests
--
-- Names follow the source without the leading underscore. A guard that returns early is an `if` in
-- front of the rest; a function that the source writes in one piece and that is long here is cut at
-- its early returns, and its comment names the piece.
--
-- Bounds and fuel. Python's integers have no bound and the counters are natural numbers, as the
-- checks of the state demand. Every loop is a structural recursion over a list. The one function on
-- fuel, `show` of Text/Decimal, prints a number: its fuel is the number plus one. Each digit makes the
-- number smaller; Text/Decimal/Enough is about more fuel than that.
--
-- Simplifications. A text is stripped and lowered by the rules for the characters that Text lists.
-- `schema_version` fields have one value and are left out, and so are the times and
-- the contents of a tool result, which nothing here reads. Checks of Python types that the types of
-- the model make true (`isinstance`) have no counterpart. A tool call's arguments are their JSON
-- text, as the fingerprint of the loop guard reads them.
--
-- Taken as arguments: whether the port of the boundaries takes a boundary, the clock, the random part
-- of an id (`uuid4`), the SHA-256 fingerprint of a call, and what a tool registers as callables, the
-- decoder of its input and the resolver of its access, which may raise. What a call that may run holds
-- as its input is what the resolver gives, as in `_Prepared`.
--
-- Not modelled: serialisation (`to_dict`, `from_mapping`), the driver's calls of the model and of the
-- tools, the entry of a run and its outcome, its shields against cancellation, batches in the tool
-- runtime and the run of a handler, sessions, the model providers and the interfaces.
pub mod Base
pub mod Literals
pub mod Text
pub mod Plan
pub mod State
pub mod Commands
pub mod Tools
pub mod Events
pub mod Observations
pub mod Contracts
pub mod Reducer
pub mod Policy
pub mod Security
pub mod Attempts
pub mod ToolRuntime
pub mod Driver
pub mod Scenarios
