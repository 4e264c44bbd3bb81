-- ===== src/Lib.antt =====
-- JITForge: the registry of tools and synthesis jobs, the worker's agent with its requests to the web,
-- and the domain and protocol types they are built on.
--
-- A server registers a request for a tool: the registry gives it a new version and a queued
-- synthesis job. Workers claim jobs by a lease that they renew, checkpoint their agent, set the
-- stage of the job, ask the user for input, and publish an artifact or reject the job. Users
-- answer questions, cancel jobs, revoke versions and approvals, and resolve a tool to its artifact.
--
-- Parts and files:
--   Domain.antt is crates/jit-domain/src/lib.rs: `parse_tool_name` is ToolName::from_str,
--     `parse_tool_intent` ToolIntent::from_str, `parse_status` and `as_str` the codes of
--     ToolVersionStatus. Text.antt is what it uses of str and char.
--   Protocol.antt is crates/jit-protocol/src/lib.rs: the enumerations with their codes, requests
--     and responses; a `Value` stands for serde_json::Value.
--   Storage is crates/jit-storage/src/lib.rs over the tables of migrations/*.sql:
--     Schema has a record for each row and `Db` for all tables; a transaction of Tx takes the
--     tables and gives an answer with new tables, or an error, and `commit` keeps the old tables on
--     an error. Each method of Registry is a function of its own name: `register` in Register,
--     claiming and renewal in Claim, checkpoints, stages, contract, publication and rejection in
--     Progress, cancellation and inputs in Inputs, responses in Responses, events and their byte
--     budget in Events, references and compaction in References, versions in Versions, approvals
--     and heartbeats in Capabilities, lists in Listing.
--     Ops has every call that changes the tables as an `Op`; `run` is a history of them.
--     Jobs has the edges that a job's row may move along; Jobs/Steps holds each operation against
--     them, Jobs/Life is about histories and Jobs/Exclusion about the job that a worker holds.
--     The other children of a part are its lemmas.
--   Artifact.antt has the types of crates/jit-artifact/src/lib.rs.
--   Worker is apps/jit-worker/src/jobs.rs, with the types and checks of synthesizer.rs: Act has actions
--     on the tables and the agent's workspace, which keep what they changed before an error; Types and
--     Outside the data and the arguments of the tools; Rules the checks on them (Urls those of
--     capabilities and URLs, Contract those of a contract and its tests); Errors and Json the texts and
--     the JSON of values; Calls what the tools share. Evaluate is `evaluate_after_mutation` and what it
--     calls, Tools has a function for each tool, named as the tool is, and `execute_tool`; Agent has
--     `available_tools`, the stages and `handle_job`, with the task as an argument, cut where its waits
--     leave room for a renewal of the lease. Tools/Kept is the interface of the changes that the tools
--     make to the workspace, which an invariant fills; Counted and Probed are about what they count.
--     Synthesis has `parse_contract_review_turn`, `parse_verifier_turn` and settings of synthesizer.rs.
--   Web is apps/jit-worker/src/web_access.rs: Addresses has `is_public_ip`, Requests `public_get`,
--     `validate_public_url`, `capability_allows` and `read_bounded`, Documents `fetch_document` and
--     `probe`, Pages `strip_html`.
--   Base has the helpers on tests, lists and tables; Text those on texts; Examples the concrete inputs.
--
-- What is a parameter: `Codec` stands for serde_json, sha2, uuid and chrono; the time of a call and
-- the UUIDs that it draws are arguments; `locked` of `claim_synthesis_job` tells the rows that SKIP
-- LOCKED passes over. `Outside` holds what stands around the worker: the clock, what others do to the
-- tables before each call, the model's answers, the runner, the artifact store and the web, each with
-- the number of the call; `Texts` in it stands for serde_json, url and UTF-8 decoding. `Net` stands for
-- the resolver, the HTTP client, url and the proxy that is set; the addresses of a host come in the order of a BTreeSet.
--
-- Simplifications: PostgreSQL transactions are taken as serialised, so each is one step, and the two
-- statements of `set_job_stage`, which commit one by one, are two operations. BIGINT columns are
-- natural numbers, with the bounds of i64 and u64 tested where the code tests them. Some columns
-- that no modelled query reads are left out, and so is the parsing of a stored enumeration, since a
-- CHECK confines its column. No loop of these parts needs fuel; `follow`, which reads page after
-- page, takes as many pages as there are rows, and the redirects of
-- a request are counted down as in the code. The hash sets of the workspace are lists, and its maps are
-- lists in the order of their keys. The fields of a JSON object stand in the order in which they are
-- written down; what their order is as text is up to the `Codec`.
--
-- Not modelled: the loop over the model's turns (`drive_agent`, `process_job`) with its checkpoints and
-- the clean-up of candidates, the synthesizer's calls, the runner, the web search, the artifact store,
-- the configuration, the server, the command line client, the invocation log, and the lists of tools,
-- versions and approvals.
pub mod Base
pub mod Text
pub mod Domain
pub mod Protocol
pub mod Storage
pub mod Artifact
pub mod Worker
pub mod Web
pub mod Examples
