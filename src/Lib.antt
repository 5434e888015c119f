-- ===== src/Lib.antt =====
-- dfgo runs pipelines of language model calls, tools and human gates that are written as DOT
-- graphs. This library models its engine, internal/attractor, as far as the files below say.
--
-- A text goes through internal/attractor/dot (Dot: Token, Scan and Lexer are lexer.go, Parser is
-- parser.go) to a graph of internal/attractor/model (Model: Graph and Attrs are graph.go). The
-- stylesheet of the graph is applied to its nodes (Style is style/stylesheet.go), and the lint
-- rules are run (Validate: Rules are rules.go, Diagnostic and Runner are validate.go, Reach is
-- the walk of the rule on reachability). Engine is engine.go: State has the fields of `Engine`
-- that a run changes and the parameters it runs with, Gates has `checkGoalGates`,
-- `resolveRetryTarget` and `findConvergence`, Node has `executeNode` and what is done with an
-- outcome, Step has one turn of the loop of `execute` and the loop, Lifecycle has `Prepare`,
-- `initialize`, `execute` and `finalize`. The loop leaves a node by the edge that EdgeSelect
-- (edge/selector.go) picks, which reads the conditions of Cond (cond/cond.go). Runtime has the
-- outcomes, the context, the data of a checkpoint and the retry policies of runtime/, Fidelity
-- the modes of fidelity/fidelity.go. Handlers has what the fan-out and the fan-in decide
-- (handler/parallel.go, handler/fan_in.go), the supervision of a child in ManagerLoop
-- (handler/manager_loop.go), and in Basic the start, the exit, the conditional, the human's gate
-- and the shell command (handler/start.go, exit.go, conditional.go, wait_human.go, tool.go).
--
-- Events is the emitter of the engine's events, events/events.go.
--
-- Agent is internal/agent: Detector is loop/detector.go, Message is message/message.go, Tool the
-- registry of tool/tool.go, and Session is session.go, with one turn of the loop of `Run` in Turn
-- and the loop in Run. A session calls the models through internal/llm (Llm: Message is types.go
-- and request.go, Errors is errors.go, Retry the retries of middleware.go, Stream is stream.go,
-- Sse is sse.go, Client is client.go with the layers of middleware.go around its providers,
-- Provider the adapter of the Anthropic API, provider/anthropic.go with its wire format in Wire
-- and its stream, anthropic_stream.go, in Reader). Server has the broadcaster of events to SSE
-- clients, internal/server/sse/broadcaster.go, and in Runs the manager of the runs,
-- internal/server/runmgr/manager.go.
--
-- A Go map is an association list, with what Go leaves open in the order of a `range` left open
-- by the order of the list; a string is a native text, walked by its characters; `sort.Slice` is
-- a stable insertion sort; a mutex that is held for a whole method makes the method one step. A
-- pointer into a slice is a position. A float is a parameter, and the theorems that compare
-- weights take its laws for numbers that are not NaN as a hypothesis.
--
-- The loops that Go bounds by the text run on fuel, one more than the text has characters, since
-- each round takes one; the parser would answer a text that needs more with the error
-- out_of_fuel. The walk of the reachability rule has as much fuel as there are edges and one
-- more, since each nested call marks one more target of an edge. The loop of `execute` may go
-- round for ever, since a pipeline may: its theorems are on every run that ends, with any fuel.
-- The loop of a session has as much fuel as its limit on rounds and one more: each turn that goes
-- on counts a round.
--
-- Not modelled: the goroutines of parallel branches and the handlers that call models; handlers
-- are a parameter of the engine together with what it wires into them, and so is the preamble
-- text; Go's context, timers, the file system, the CXDB service and the JSON of parallel results,
-- which are a record `World` of functions, as are the context, the client, the prompt and the
-- calls from other goroutines for a session; the agent's tools and prompts, the adapters of the
-- OpenAI and Gemini APIs, HTTP and JSON, the HTTP handlers of the server and the command line.
pub mod Prelude
pub mod Model
pub mod Dot
pub mod Cond
pub mod Runtime
pub mod EdgeSelect
pub mod Style
pub mod Fidelity
pub mod Validate
pub mod Agent
pub mod Handlers
pub mod Engine
pub mod Events
pub mod Llm
pub mod Server
mod Tests
