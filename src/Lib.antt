-- ===== src/Lib.antt =====
-- whatsrust: a WhatsApp daemon. This library models the parts of it that keep state in SQLite, decide
-- what happens next, and admit requests from outside, and proves what they promise.
--
-- The parts and how they interact. Callers enqueue operations to send; the outbound queue of
-- src/storage.rs hands them to one worker, which marks each sent or failed. A client of the API
-- triggers the fetch of a chat's history; `enqueue_backfill_job` admits it, the worker of
-- src/backfill.rs claims the job, asks the phone for page after page from an anchor, stores each page
-- by a sink, records the progress and the cursor of the chat, and ends the job. The stored messages
-- form the timeline, and those with text wait for an embedding, which the drain fetches in batches
-- from a sidecar.
--
-- Two listeners bring requests in. The REST listener of src/api.rs reads the head of a request, checks
-- its origin, host, content type, token and framing, reads the body and hands both to the handler of
-- the route. The MCP listener of src/mcp_http.rs uses the same reader and checks, unpacks a JSON-RPC
-- call, looks the tool up in the registry of src/mcp_registry.rs, checks the arguments against the
-- schema of the tool and makes the REST call of the tool within the process. Before the start the
-- daemon checks that neither listener is open to the network unguarded.
--
-- Files:
--   * Prelude: shared tests on numbers, lists, options; Prelude.Int: ℤ over the native numbers, with
--     sums read by `omega` through the lemmas in `int_laws`; Prelude.Table: a table as a list of rows
--     in the order of their ids, UPDATE … WHERE as a map, SELECT … LIMIT 1 as the first match;
--     Prelude.Deletes: DELETE … WHERE as a filter.
--   * Outbound.OpKind: `OutboundOpKind`, `as_str` and `parse_str` of src/outbound.rs.
--   * Store.Watchdog: `watchdog_should_alert` of src/storage.rs.
--   * Store.Queue: the table `outbound_queue`; one function for each operation, under the name of the
--     Rust method, and `Op`, `apply`, `run` for histories. Rows, Claim, Retry, Depth hold the proofs.
--   * Store.Db: the tables `messages`, `embeddings`, `backfill_jobs`, `backfill_cursor` as one record.
--   * Store.Cursors, Store.Jobs, Store.Messages: the operations on them. Jobs.OneActive, Jobs.Cancel,
--     Jobs.Enqueue, Jobs.Admits, Jobs.Listed, Messages.Timeline and Messages.Pending hold the proofs.
--   * Backfill.Target: `FetchTarget` and `evaluate_target`; Backfill.History: `drain_history_sync` and
--     `drain_all_conversations`; Backfill.Anchor: `oldest_anchor` and `resolve_anchor`;
--     Backfill.Process: `process_job`; Backfill.Worker: one turn of `run_worker_loop`; all of
--     src/backfill.rs. Process.Ends, Process.Cooldown and Worker.Marks hold the main proofs,
--     Process.Steps, Process.Stamp and Process.Keeps their lemmas.
--   * Outbound.Worker: one turn of `handle_outbound` of src/bridge.rs; Worker.Marks and Worker.Others
--     hold the proofs.
--   * Drain: src/embed_drain.rs. Drain.Text is `prepare_text_for_embedding`, Drain.Guards the loading
--     timer, the bisection and the search cool-down, Drain.Worker one turn of
--     `run_embedding_drain_worker`, with the proofs in Worker.Sane.
--   * Dedup: `AtomicDedupCache` of src/dedup.rs, with the proofs in Dedup.Bounds. Receipts: the read
--     receipt scheduler of src/read_receipts.rs, with the proofs in Receipts.Conserve.
--   * Http: src/api.rs from the stream to the route. Http.Url is `urlencode` and
--     `decode_query_component`, Http.Lossy `String::from_utf8_lossy`, Http.Headers and Http.Tokens the lookup of headers and the comparison
--     of tokens, Http.Gate `gate_request`, Http.Head and Http.Body the readers, Http.Router the match
--     of `handle_request` on method and path, Http.Serve `serve_connection`, Http.Response `into_bytes`
--     and `parse_cli_response`. Response.Decimal, Response.Split, Response.Status, Response.Reads,
--     Lossy.Written, Tokens.Held, Gate.Accepts,
--     Head.Chunks, Router.Writes, Serve.Checks and Serve.Writes hold the proofs.
--   * Trigger: `handle_history_fetch_trigger` and `handle_history_fetch_cancel` of src/api.rs over the
--     tables of Store.Db, with the proofs in Trigger.Queued.
--   * Startup: `validate_api_startup` of src/api.rs, `validate_mcp_startup` of src/mcp_http.rs and
--     `validate_backfill_safety` of src/main.rs, with the proofs in Startup.Accepts; Startup.Exposed
--     joins them with Http.Serve.
--   * Mcp: Mcp.Tool and Mcp.Registry are the tools of src/mcp_registry.rs and Mcp.Args
--     `validated_args`; Mcp.Era, Mcp.Call, Mcp.Rpc and Mcp.Listener are `detect_era` with
--     `validate_request_headers`, `call_tool`, `handle_body` and `serve_connection` of
--     src/mcp_http.rs. Args.Types,
--     Args.Valid, Args.ReadOnly, Era.Once, Era.Encoded,
--     Era.Agree, Call.Ran and Listener.Guarded hold the proofs.
--   * Sidecar: the pending calls of src/embedder.rs and `verify_embed_response`, with the proofs in
--     Sidecar.Routing, Routing.Runs and Sidecar.Verify.
--   * Store.Cursors.Refines: the cursor table as a map from chats.
--   * Prelude.Texts: texts as lists of character codes.
--   * The Tests modules apply the theorems at concrete inputs.
--
-- Conventions. An operation on a table is a pure function from the tables to the tables; the time that
-- it reads from the clock is its argument `ts`. An SQLite call that fails changes nothing and its
-- error ends the operation, so only the success is written out, except where the caller ignores or
-- reports the failure: there a Boolean says whether it happened. SQLite runs the operations one at a
-- time on one connection, so an interleaving of tasks is a list of operations. Row ids are natural
-- numbers that AUTOINCREMENT hands out; times are signed integers. i64 sums of clock times and
-- delays are taken not to overflow.
--
-- Texts that the code takes apart are lists of character codes, and the bytes of a request are codes
-- below 256. A stream is the list of what its reads return, an empty or failed read being its end; a
-- reader stops at the end of that list, as at a timeout. A JSON value has a float only as its integral value, where it has one.
-- What `is_loopback_bind`, the base64 and UTF-8 decoders and the JSON parser answer are arguments. The
-- ids of the calls to the sidecar wrap at 2 ^ 64, as in the code. The MCP handlers return
-- neither the entry for the log nor the data of an error, and a failed tool call has no text.
--
-- `process_job` runs over a list of rounds, each with what the source, the sink's tables, the
-- connection and the cancel token answer in that round; its length is the fuel. A job bounded by n
-- messages ends within n rounds, since a round that goes on has counted at least one message.
-- The counter of fetched messages saturates at u32 and the length of a page is cut to u32, as in the
-- code. The sink, a trait object, is a parameter. The JID library is a parameter of the outbound
-- worker. The drain knows of the sidecar its health and how many vectors it returns; its counters, u32
-- in the code, do not wrap here.
--
-- Not modelled: the contents of media and vectors, the search, the protocol store and the migrations
-- of src/storage.rs; the handlers behind the routes of src/api.rs but for the history trigger, the event
-- stream and the sockets of the command line client; the MCP server on stdin of
-- src/mcp.rs, the log and counters, the loops that accept connections; the process of the sidecar and
-- its lines; the event loop of src/bridge.rs; the
-- interleavings within one admission of src/dedup.rs; the pacing delay; and everything that is a call into
-- the WhatsApp client.
pub mod Prelude
pub mod Backfill
pub mod Dedup
pub mod Drain
pub mod Http
pub mod Mcp
pub mod Outbound
pub mod Receipts
pub mod Sidecar
pub mod Startup
pub mod Store
pub mod Trigger
