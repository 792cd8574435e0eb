-- ===== src/Lib.antt =====
-- A model of TradeCore, the matching and risk engine of MMPerp.
--
-- Parts. The transport parses datagrams to frames. The ingress pipeline verifies, limits and queues
-- them. The event loop appends each queued frame to the write-ahead log and decodes its message, and
-- stores a snapshot from time to time; a replay starts from the latest snapshot and reads the log. An
-- order reaches the matching engine after the risk check. The engine matches it against
-- the book of its market, rests what is left, and reports the fills. The fills update the positions
-- in the risk engine, whose margins the liquidation check reads. The funding engine keeps the mark
-- price, the premium and the accumulated funding of each market. The ledger keeps the available and
-- the locked collateral of each session.
--
--   Common    libs/common/include/tradecore/common/types.hpp: sides, flags, times in force, order ids
--   Common/Ring  libs/common/include/tradecore/common/spsc_ring.hpp, each call as one step
--   Ingress   libs/ingest/src/ingress_pipeline.cpp: the admission of frames, with a verifier that is
--             the caller's; Ingress/Arrivals tells which frames wait in the queues afterwards
--   Ingress/Messages  libs/ingest/include/tradecore/ingest/sbe_messages.hpp: the messages in the
--             payloads, with their round trips in Ingress/Codec; Common/Bytes has the words in bytes
--   Auth      libs/auth/src/authenticator.cpp: keys and signed frames; the calls of libsodium are a
--             parameter, with what its documentation promises of them
--   Matcher   libs/matcher/src/matching_engine.cpp and its header: Matcher/Level has the price level,
--             Matcher/Books the ordered books, Matcher/Matching the matching loop, Matcher/Engine the
--             requests; Matcher/Invariant and Matcher/Requests have their theory, in which
--             Matcher/Requests/Rankings follows the place of an order in its book
--   Risk      libs/risk/src/risk_engine.cpp: Risk/Engine has the operations that change the state,
--             Risk/Summary the margins and the order check; Risk/Liquidation is
--             libs/risk/src/liquidation_engine.cpp. Risk/Positions is about fills,
--             Risk/Margins, Risk/Equity and Risk/Checks about the check of an order, Risk/Verdicts
--             and Risk/Cures about that for liquidation
--   Funding   libs/funding/src/funding_engine.cpp, with its theory in Funding/Bounds
--   Ledger    libs/ledger/src/ledger_state.cpp, with its theory in Ledger/Totals
--   Transport  libs/ingest/src/transport.cpp: Transport/Wire parses a datagram, Transport/Endpoint an
--             address, Transport/Udp has the receive loop, on a list of datagrams, and its statistics;
--             Transport/Quic is libs/ingest/src/quic_transport.cpp
--   Wal       libs/wal/src/wal_writer.cpp: Wal/Record has the encoding, Wal/Reader and Wal/Writer the
--             two classes, Wal/Logs, Wal/Appends and Wal/Seeks their theory
--   Snapshot  libs/snapshot/src/snapshot_store.cpp: Snapshot/Record has the encoding, Snapshot/Store
--             the operations, Snapshot/Files and Snapshot/Compaction their theory
--   Replay    libs/replay/src/replay_driver.cpp, with its theory in Replay/Recovery
--   Api       libs/api/src/api_router.cpp, with its theory in Api/Numerals and Api/Buffers
--   Config    libs/config/src/config_loader.cpp and its header: Config/Parsing reads a configuration
--             from a document of the TOML library, which is a parameter, Config/Validation checks it,
--             and Config/Defaults writes the default one; Config/Verdicts has the theory
--   Telemetry  libs/telemetry/src/telemetry_sink.cpp: histograms and the sink, with its theory in
--             Telemetry/Buckets; the bits of a word have fuel 64
--   Node      apps/tradecored/src/main.cpp: Node/Fills books fills, Node/Orders handles a frame of each
--             queue, Node/Loop has the loops over the queues and a round of the event loop;
--             Node/Drained, Node/Durable, Node/Positions and Node/Signed have the theory. Node/Start
--             is the start of the program, from its configuration to the event loop, and its end, and
--             Node/System the running program: frames arrive between any two steps of the loops, of
--             which rounds are made (Node/System/Rounds), and what holds after any steps is in
--             Node/System/Invariant and Node/System/Delivery; Node/System/Histories has any number of
--             starts of the program, each on the log that it left, and Node/System/Settled, on
--             Node/Tracked and Matcher/Requests/Makers, the positions and the contexts of orders. A
--             frame that arrives while the program still starts only waits, as one that arrives right
--             after
--
-- Prices, quantities and amounts are signed integers without bound: an overflow of the source's
-- 64-bit type is undefined there. A map that the program only looks up is a function from keys to
-- optional values, and one that it iterates over is an association list. The intrusive list of a
-- price level is the queue of its orders' keys, and the records stand in the market's map. A counter
-- of unsigned 64-bit type wraps. A file is the list of its bytes, a word in it has the low byte first,
-- and the calls of the file system succeed. A function that throws returns an option or an error.
-- Most loops run down a list. The loops that read a log or a snapshot file have the file's length as
-- fuel, more than the number of its records, each of which has some bytes; the loops over the queues
-- have the ring's capacity, more than the frames in it; the digits of a number have 16 or 20, which
-- 64 bits never exceed. The theorems about these loops give their results, so that they do not run out.
--
-- Not modelled: memory arenas and their exhaustion, failing calls of the file system, sockets and
-- threads, the signals, and what the program prints. The receiving thread's callback and each frame
-- that the event loop handles are single steps. Arithmetic in floating point is left to parameters.
pub mod Prelude
pub mod Common
pub mod Matcher
pub mod Risk
pub mod Funding
pub mod Ledger
pub mod Ingress
pub mod Auth
pub mod Transport
pub mod Wal
pub mod Snapshot
pub mod Replay
pub mod Api
pub mod Node
pub mod Config
pub mod Telemetry
