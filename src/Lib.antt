-- ===== src/Lib.antt =====
-- simple-agent-framework: a Go library for agents that plan with a language model, ask a human
-- before they act, run tools, and judge what came of it.
--
-- The parts and how they interact. A session runs the loop of agent/loop.go: a state machine whose
-- states plan (planner), ask (interrupter), execute (executor, with the loop detector), judge
-- (evaluator) and complete. It reads and writes the session's memory, emits events to hooks and
-- saves snapshots. The memory is a window over a message store; tool results are truncated, with
-- the full text in a content store, and older ones are cleared.
--
-- Prelude: shared names, Boolean tests, lists measured by native numbers, Go's int where it may be
--   negative, and Go strings as lists of bytes. Errors: the error values of errors/errors.go, and
--   functions that change a state and may fail.
-- Model, Planner, Interrupter, Evaluator, Hook: the data types and interfaces of the packages of
--   those names. An interface is a record of functions, or one function, over the state of the world.
--   Model.Options: model/option.go. Model.Stream: the iterator of model/model.go, as a relation, since
--   its select may take either channel. Model.Retry: model/retry.go, with the errors that are worth
--   another call in Retryable. Model.SlidingWindow: model/rate_limiter.go, a ring buffer read as a
--   queue; Model.RateLimiter: the token bucket of that file, the waits, as lists of their rounds, and
--   the limiter of both. Metrics: metrics/metrics.go, two ring buffers read as a queue.
--   Interrupter.Hitl: interrupter/hitl.go. Interrupter.Checkpoint: interrupter/checkpoint.go.
--   Evaluator.Composite, RuleBased and Judge: the evaluators of evaluator/composite.go, rule_based.go
--   with noop.go, and llm_judge.go.
-- Provider: what the two clients share, with Transport for the HTTP call and the body of an answer.
--   Provider.Anthropic: model/provider/anthropic/anthropic.go, with the events of its stream in
--   Stream and the theorems in Conversation, Runs and Sending. Provider.OpenAi:
--   model/provider/openai/openai.go, with the pieces of its calls in Interleaved. Provider.Indices:
--   the accumulators that both clients keep by index.
-- Retriever: retriever/retriever.go, keyword.go and semantic.go; Hybrid: hybrid.go; RagTool:
--   rag_tool.go.
-- Planner.React: planner/react.go. Planner.ToolInput: normalizeToolInput, which stands in
--   planner/react.go and in agent/loop.go.
-- Planner.PlanAndSolve: planner/plan_and_solve.go, the planner's plan as state; Parse: the model's
--   answer read as a plan; Extract: the JSON in it; Progress, Steps and Order: the theorems.
-- Memory.Store: memory/store.go and memory/store_inmem.go. Memory.Buffer: memory/buffer.go.
--   Memory.ContentStore: memory/content_store.go. Memory.Compressor: memory/compressor.go, with
--   theorems in Truncate, Compact and Prune. Memory.Summary: memory/summary.go.
-- Registry: rule/registry.go, for the three registries: a map and the order of its names, read as a
--   dictionary. Rule: rule/rule.go. Skill: skill/skill.go and skill/registry.go. Skill.Context:
--   skill/context.go, the model's dialogue with the tools of a skill. Tool: tool/tool.go and
--   tool/registry.go, whose Execute reaches a tool by name. Tool.Builtin: the tools of tool/builtin/ that
--   look into the agent: rule_view.go, skill_call.go and fetch_full_result.go.
-- FrontMatter: parseFrontmatter, which stands in rule/loader.go and in skill/loader.go; Files: what
--   these call of os and path/filepath. Rule.Loader and Skill.Loader: the loaders.
-- Executor: executor/executor.go and executor/parallel.go. The goroutines of a batch are jobs, and the
--   steps that they may take next, in any order, a relation.
-- Prompt: prompt/builder.go and prompt/catalog.go; Defaults: prompt/defaults.go.
-- Agent.LoopDetector: agent/loop_detector.go. Agent.Loop: agent/loop.go, one file per group of
--   states; State has the variables of runLoop as a record, and all that it calls as the record
--   Env over a state W of the world; each handler is a function from the variables and the world to
--   the next variables, or to a reply, and the world. Agent.Run: the rounds of the loop.
-- Agent.Setup: agent/agent.go, the parts of an agent and how they are changed; Options:
--   agent/option.go; Calls: the methods that may be called of an agent; Settled, Fresh, Members and
--   Lifecycle: what they keep. Agent.Session: agent/session.go; Suspended: the snapshots
--   that agent/agent.go takes and resumes by a session's identifier.
-- Tests: runs on small inputs.
--
-- Bounds and fuel. Numbers are unbounded: the program's counters are lengths and iterations that
-- stay far below the machine's. Agent.Run.rounds takes the number of rounds; Agent.Run.Rank has the
-- measure that falls with each round. prune_loop takes the number of messages as fuel, and a round
-- takes a message at least; so does the loop that makes the messages of a request of Anthropic. The
-- loop of SummaryMemory.Add takes rounds as fuel; two are enough. The rounds of a skill's dialogue are
-- the program's own bound.
--
-- Not modelled: durations and clocks but for the identifier of a call; the save of a snapshot, which
-- runs beside the loop, is an effect where it starts; the mutexes, under which each method is one
-- step. encoding/json, net/http, crypto/sha256, crypto/rand, models, tools, people and floating-point
-- ratios are parameters, and so are sort.Slice and the verb %q. The race between the human's answer
-- and the wait timeout is decided by a parameter.
-- A plan-and-solve planner without a model panics in Replan; the model writes an error there.
-- Times are numbers of nanoseconds of a clock that does not go back. A buffer without room, in which
-- the program would divide by zero, and a negative size, with which it panics, are left out: the
-- theorems on buffers ask for a positive one. The two goroutines of the hybrid retriever run one after
-- the other, in either order, and so do concurrent calls of the rate limiter: the rounds of two waits
-- are not interleaved. The slice that the goroutines of a batch write their results to is a result that
-- each job carries with its place. The filter of the retrievers writes over the slice that it was given,
-- which the model does not show.
-- The template engine of prompt/template.go, over text/template, is read by no other code. The output
-- controller of hook/outputhook/ and the schemas of tool/schema.go work by reflection, over parsers
-- and validators of third parties. The adapters of model/wrap.go, model/metrics_model.go and
-- model/stream_handler.go hand calls on. Sandboxes, the other built-in tools, the MCP client, vector
-- stores and loggers are I/O.
pub mod Prelude
pub mod Errors
pub mod Executor
pub mod FrontMatter
pub mod Metrics
pub mod Retriever
pub mod Model
pub mod Memory
pub mod Planner
pub mod Provider
pub mod Registry
pub mod Rule
pub mod Skill
pub mod Tool
pub mod Prompt
pub mod Interrupter
pub mod Evaluator
pub mod Hook
pub mod Agent
pub mod Tests
