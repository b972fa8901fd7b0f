-- ===== src/Lib.antt =====
-- MongoCore is a sidecar in front of MongoDB, written in Rust. Clients talk to it over a Unix
-- socket with a binary protocol of its own; it reads frames, parses their envelopes, serves them by
-- priority and writes replies in batches. Beside single operations it runs transactional pipelines,
-- in which a step may refer to the results of earlier steps.
--
-- Prelude and its children hold what all parts share: tests on the native numbers, lists measured
-- by them, words and their bytes, text as lists of code points, and Rust's `Result`.
--
-- Transport models src/transport. Transport.Flags and Transport.Frame are frame.rs: `Flags::encode`
-- and `decode` are encode_flags and decode_flags, `FrameHeader` has encode_header and
-- decode_header, and write_frame, read_frame and split_payload keep their names; what read_frame
-- does after the header is read_payload. Transport.BufferPool is buffer_pool.rs with
-- read_frame_pooled of frame.rs. Transport.Codec is codec.rs: one parse_* function for each arm of
-- `parse_envelope`, and response_parts for the match of `encode_response`. Transport.Queue is the
-- priority queue of connection.rs, and Transport.Connection its handshake and request loop:
-- open_connection is what happens to the first frame, process is one turn of the loop, Step and Run
-- are relations on the state that the loop keeps between turns, in which the environment chooses
-- what arrives and when. The connection uses the codec, the queue and the frames; the dispatch of a
-- parsed request to the database is an argument, of the type that Transport.Dispatch has.
-- Transport.Dispatch is dispatch.rs, an arm that is long being a function of its own;
-- Transport.Prefetch is prefetch.rs.
--
-- Operations models src/operations. Operations.Json has the values of serde_json and the text
-- operations of the standard library; Operations.Refs and Operations.Refs.Resolve are
-- pipeline_refs.rs, and Operations.Pipeline is transaction_pipeline.rs with its constants from
-- src/defaults.rs. The pipeline calls the references for validation and at each step, and
-- execute_step, in Operations.Pipeline.Steps, for what a step does in the database.
-- Operations.Crud is crud.rs, aggregation.rs and find_and_modify.rs, Operations.Admin is admin.rs,
-- raw.rs and raw_validator.rs, with `update` and `filter` arguments as in the source; both call the
-- driver of Operations.Driver, which also has the errors of src/error.rs. The dispatch calls these
-- operations.
--
-- Ingestion models src/ingestion: Ingestion.Dedup is dedup.rs, and Ingestion.Sequential and
-- Ingestion.Concurrent are the two write loops of engine.rs, and Ingestion.Progress is progress.rs.
-- In the concurrent one the producer, the writers and the channel between them take steps in any
-- order (Step and Reach). Ingestion.Engine is the rest of engine.rs, `ingest` with the end of its
-- task as close_job and then remove_channel, and `cancel` as cancel_ingest; Ingestion.Schema is schema.rs,
-- Ingestion.Writer is writer.rs, and Ingestion.Reader is reader.rs.
--
-- Tenant.Isolation and Tenant.Quota are src/tenant/isolation.rs and src/tenant/quota.rs: the cache
-- with a bound for each tenant and the rate limiters. Analytics.RingBuffer is
-- src/analytics/ring_buffer.rs. Compiled.Validator is src/compiled/validator.rs; the pipelines that
-- it validates are aggregation pipelines, in validate_stages. Compiled.MemoryCache is
-- src/compiled/cache/memory.rs, with put_query for its `put`; Compiled.Hierarchy is
-- src/compiled/cache/mod.rs, disk.rs and atlas.rs, and Compiled.Translator is
-- src/compiled/translator.rs, which uses the hierarchy and the validator. Search is src/search,
-- which calls Operations.Crud. Voyage.Batch is src/voyage/batch.rs, with embed_one for `embed_one`
-- up to its batch window and take_pending for what follows it; its callers take steps in any order.
-- Grpc.Streams has the two handlers of src/grpc/service.rs that insert a stream. Mcp.Safety is src/mcp/safety.rs and src/mcp/session.rs. Concurrent
-- maps are association lists, and a call is one step.
--
-- Words are natural numbers with their wrap-around written out; a byte is not bounded unless a
-- statement says so. The reference parser runs on fuel, the length of the text after the step name:
-- each round takes at least one character off. The parser of raw documents runs on the length of
-- the bytes, of which each round takes five at least, and the sequential ingestion on the number of
-- rows, of which each chunk takes one at least if the batch size is not zero. The retries of a
-- pipeline are a recursion on their number, three. All else recurs on the structure of its
-- argument.
--
-- Other crates are parameters with the laws that the code relies on: Reader and Writer are tokio's
-- halves of a socket, Buffers the bytes and crossbeam crates, Bson the bson crate, Crates the
-- regular expression and the printing of JSON, the Driver of Operations.Pipeline.Steps the MongoDB
-- driver with the clock, Operations.Driver's the same driver's collections, Collection and Table the
-- target of an ingestion and its rows, Bookkeeping a count of what the calls on the target have
-- answered, Store the collection of jobs, Stores the file system and the collection of compiled
-- queries, Services what surrounds the translator, Polars and Readers the data frames, Environment
-- what surrounds the ingestion engine, and VoyageClient the service that embeds texts. The examples
-- fill each of them with concrete functions.
--
-- Not modelled: the timer and the shutdown signal of the request loop, the accept loop, the
-- operations that hand a cursor on, the transformations and the watching of directories in
-- src/ingestion, the other files of src/tenant, src/analytics, src/compiled and src/mcp, and the parts of the
-- program outside these folders.
--
-- Examples holds the concrete crates, sockets and drivers, and the theorems at concrete inputs.
pub mod Prelude
pub mod Transport
pub mod Grpc
pub mod Voyage
pub mod Operations
pub mod Examples
pub mod Tenant
pub mod Analytics
pub mod Compiled
pub mod Ingestion
pub mod Mcp
pub mod Search
