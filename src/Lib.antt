-- ===== src/Lib.antt =====
-- pg2osync replicates tables of PostgreSQL or MySQL into a search target. A source turns the
-- database's stream, and the copy of each table, into change events (crates/source,
-- crates/source-mysql). The engine gathers events into batches of document operations and hands
-- them to a sink task, which writes them to the target, files or refuses what the target rejects,
-- and acknowledges positions; a checkpoint task persists an acknowledged position before the source
-- may let go of its log (crates/engine/src/lib.rs). This library models that path from the event to
-- the acknowledged position.
--
-- Base: shared names, Boolean tests, native lists, byte strings (Text), association maps (Map) and
--   signed integers with their decimal text (Int).
--   A Rust string is the list of its UTF-8 bytes; a HashMap is an association list.
--
-- Core: crates/core/src. Json is serde_json's value, Lsn lsn.rs (with its text: Lsn.Hex,
--   Lsn.Halves and Lsn.RoundTrip), Error error.rs, Event event.rs, Sink sink.rs, Tables
--   tables.rs (the tables a running stream admits).
--
-- Engine: crates/engine/src/lib.rs.
--   Engine.Command: SinkCommand, estimate_json, op_size.
--   Engine.Intake: LoadIntake and RateLimit, the rate-limited channel of the load.
--   Engine.Batch: the engine task of `run`. Batch.State holds the variables of its loop, Batch.Rows
--     the Row arm (gathering, the superseded window, splitting), Batch.Handlers the other arms and
--     one `turn` of the loop. Batch.View says what the sent commands and the buffer amount to.
--   Engine.SinkLoop: sink_loop, take_one, finish, drain and Acks::apply, as functions on a Loop, and
--     the select loop as the relation Serves.
--   Engine.Mapping: crates/engine/src/mapping.rs, id templates, index targets and their patterns;
--     Mapping.Spelled is about parsing, Mapping.Cleared about the pattern that a TRUNCATE clears,
--     Mapping.Keyed about names from a key alone, and Mapping.Yields about chains of attempts.
--   Engine.Placing: the same file's projections, renames, flattened children, fan-out, joins, routings
--     and key ids (fan-out in Placing.FanOuts).
--   Engine.Rows: `materialize` (Rows.Materialize) and `completion_key` (Rows.Completion). Rows.Filed
--     says where operations go (with Rows.Covered), Rows.Stored what they leave in a target, Rows.Moved
--     and Rows.Spread what an update leaves of a row that is one document or several (with Rows.Named,
--     Rows.Parts and Rows.Fanned).
--   Engine.Pipeline: the checkpoint task (Pipeline.Checkpoints), and the batch builder and the sink
--     loop put together (Pipeline.EndToEnd).
--
-- Core.Patterns: index_matches_pattern of crates/core/src/sink.rs (Patterns.Globs), and what a pattern
--   means (Patterns.Meaning).
--
-- Core.Load: crates/core/src/load.rs, the progress of an initial load, what a restart concludes from
--   it (Load.Progress), the marks of a channel (Load.Marks) and where progress is stored (Load.Keys).
--
-- Core.Filter: crates/core/src/filter.rs, the row filter. Filter.Syntax holds the expressions,
--   Filter.Eval their truth on a row (eval, compare, matches), Filter.Render to_sql, Filter.Tokens
--   and Filter.Scan the tokenizer, Filter.Parser the recursive descent and Filter.Parse
--   Filter::parse. Filter.Pieces, Filter.Lexed and Filter.Reparsed follow a rendering back through the
--   tokenizer and the parser.
--
-- Source: the sources' pure parts.
--   Source.Messages and Source.Pgoutput: the decoder of crates/source/src/pgoutput.rs, with the
--     server's encoding (Pgoutput.Encoding) written from PostgreSQL's message formats.
--   Source.Packets: crates/source-mysql/src/packet.rs, `frame_all`, and the reassembly of a message in
--     crates/source-mysql/src/connection.rs.
--   Source.Gtid: crates/source-mysql/src/gtid.rs, MySQL's interval sets (Gtid.Intervals, Gtid.Past,
--     Gtid.Inserts, Gtid.Numbers), MariaDB's positions (Gtid.Domains) and the tracker (Gtid.Tracker).
--   Source.Reconnect: crates/source/src/reconnect.rs, and the failures that crates/bin/src/run.rs counts.
--
-- State and interleaving. A channel is the list of what waits in it. The engine task runs
-- concurrently with its producers, so that Batch.Refines.Run interleaves turns with arriving events,
-- the passing of time, a reload, the closing of the copy channel and the end of the sink task. The
-- sink task receives commands and completes writes in any order that Serves allows. Loops are
-- structural: gathering recurses on the room left in a batch, at most batch_size - 1 rows, as the
-- source's loop condition does, so that none runs out of steps. Three loops run on
-- fuel: the cutting of a message into packets, of which there are no more than bytes, the reading
-- of packets, which have four bytes each at least, for both of which Packets.RoundTrip proves that the
-- fuel is enough, and the filter's parser, which spends four units at most on a token before it takes
-- it (Filter.Parser.Total).
--
-- Parameters. To the batch builder, RowRules stands for the configured tables: what a row becomes
--   (`materialize`, which Engine.Rows models on its own), the documents that its group needs
--   (fetch_completions), the index pattern, join and sharing of a table. World stands for the target: what it answers to each write, quarantine and clear.
--   Floats stands for Rust's f64 in a filter: parsing, printing, comparison and conversion.
--   Outside stands for serde_json's text of a value, the hash of a row, the transforms of a table's
--   columns and the cutting of a delimited text. A record Rules is what the lookups of `Rules` find for
--   one table, and a map's order of fields means nothing.
--   ReportsHighest is the documented contract of Sink::write, that its answer carries the highest
--   position of the batch.
--
-- Machine integers: the mark counter, saturating backoff and transaction numbers keep their 64 bits;
-- other positions, counts and sizes are natural numbers, which the source never lets overflow.
--
-- Not modelled: spans, log lines, metrics other than the current position, the daemon and its
-- configuration, the transforms and pseudonyms, the loaders' reads, connections to the databases and the clients of the search targets.
-- The token bucket's f64 is an integer count of 10^-9 tokens, and JSON floats are their bits.
pub mod Base
pub mod Core
pub mod Engine
pub mod Source
