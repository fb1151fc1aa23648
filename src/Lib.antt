-- ===== src/Lib.antt =====
-- tx2-link: a protocol that keeps the worlds of an entity-component system in step.
--
-- The program (src/*.rs) has these parts.
--   protocol.rs       messages: their headers, payloads, and the values that components hold
--   serialization.rs  snapshots and deltas, the choice of a wire format, framing on a byte stream
--   rate_limit.rs     a sliding-window limiter and a token bucket
--   compression.rs    the changes between two snapshots, also field by field
--   schema.rs         the schemas of components, their versions, and a validator
--   transport.rs      the traits of transports; one in memory, one over the standard streams, and
--                     one over a websocket
--   sync.rs           the manager that sends snapshots or deltas and makes events of messages
--   error.rs          the errors of all of these
--   debug.rs          what is logged and traced, under two modes that environment variables set
-- A message is built from the clock and a process-wide counter, encoded by one of three crates, and
-- sent as a frame of four length bytes and its encoding. The limiters stand before a sender.
--
-- What models which part.
--   Common            Boolean tests, lists, words, maps and texts that the modules share
--   Error             `LinkError` and `Result` (error.rs)
--   Float             the arithmetic on f64, a parameter
--   Protocol          the data of protocol.rs; Protocol.Value has `FieldValue` and its `==`,
--                     Protocol.Messages has `MessageHeader::new` and the constructors of `Message`,
--                     Protocol.Ids reads the identifiers that they make, Protocol.Race is about
--                     threads that make headers at the same time, and Protocol.Json has the JSON
--                     conversions of `ComponentData`
--   Serialization     serialization.rs; Serialization.Stream has `StreamingSerializer` and
--                     `StreamingDeserializer`, with what they do together below it
--   RateLimit         rate_limit.rs; RateLimit.Window has `RateLimiter`, RateLimit.Bucket has
--                     `TokenBucketRateLimiter`; RateLimit.Window.Reference sets the former against
--                     a limiter that forgets nothing
--   Compression       compression.rs: Compression.Delta has `DeltaCompressor`, Compression.Field
--                     `FieldCompressor`, Compression.Json the JSON values; Compression.World says
--                     what a delta means, and Compression.Replay holds the code against that
--                     (Compression.Replay.Json for components that are JSON texts, of which
--                     Compression.Replay.Content says what a world shows);
--                     Compression.Unchanged is about a world that stays as it is, and
--                     Compression.Granular about when single fields are sent
--   Schema            schema.rs: Schema.Registry has `SchemaRegistry` over the tables of one
--                     registry, Schema.Validator `SchemaValidator`, and Schema.Shared registries
--                     that are clones of one another
--   Transport         transport.rs: the trait as a record, with Transport.Memory, Transport.Stdio
--                     and Transport.WebSocket
--   Debug             debug.rs: the functions that print, with Debug.Counts for the summary of a
--                     delta and Debug.Texts for what is made in any mode; Debug.Calls has the
--                     calls in serialization.rs and compression.rs
--   Sync              sync.rs: Sync.Send and Sync.Receive have the methods of `SyncManager`,
--                     Sync.Hears says what messages do to the world of one who hears them, and
--                     Sync.Said and Sync.Remarks what a step puts into the log of the transport.
--                     Sync.Link is a manager and its peer as a transition system, Sync.Follow a
--                     run of deltas, Sync.Memory two managers over memory transports,
--                     Sync.Dialogue a request for a snapshot and the answer, Sync.Resync snapshots
--                     among deltas, Sync.Reset the delta after a received snapshot, Sync.Limits the
--                     limiter before the sends, Sync.Paced the sends where it alone decides, and
--                     Sync.Faults goes through the branches. What these ask of a transport is the
--                     record `MessageLog` of Sync.Logged, which Sync.Recorded has for any transport
--                     with a record of what it sends (Transport.Recording), and shows that the
--                     record changes nothing
--   Samples           concrete inputs for the tests, which stand in the modules named Examples
--   Suite             the unit tests at the ends of the source files, as functions into Bool
--
-- How the source is read.
--   A method that takes `&mut self` returns its result and the new state. Machine integers are
--   native numbers, with the wrap-around of release builds written out. A float is its bit pattern;
--   arithmetic on floats is the parameter `FloatOps`. An `Instant` is a number of nanoseconds and is
--   an argument, as is the system time (`Clocks` for a step of the manager). A hash map is an
--   association list in its order of iteration.
--   The crates serde_json, rmp-serde and bincode are the parameter `Formats`: an encoder and a
--   decoder that may fail with a text. Of these a theorem asks, if anything, that the format at hand
--   takes back the messages at hand (`TakesBack`). The hash maps that compression.rs goes over are
--   iterated in any order (`HashOrder`), and its JSON texts are parsed by a parameter (`SerdeJson`).
--   Loops are recursions on lists. The only fuel is that of `drain`, a caller's loop around
--   `try_read_message`: each round consumes four bytes at least, so the buffer's length is enough.
--
--   A method of the asynchronous trait is awaited to its end, and so a function like the others; the
--   socket below it is a parameter (`Socket`). What is printed is a list of texts.
--
-- Not modelled: asynchronous calls that are dropped half-way; the unit test that calls
-- `init_debug_mode`, which asserts nothing; the crate root, which only passes names on; and the
-- benchmarks.
pub mod Common
pub mod Error
pub mod Float
pub mod Protocol
pub mod Serialization
pub mod RateLimit
pub mod Schema
pub mod Transport
pub mod Sync
pub mod Compression
pub mod Samples
pub mod Suite
pub mod Debug
