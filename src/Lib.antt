-- ===== src/Lib.antt =====
-- The market-data aggregator. Providers (md_provider) hold connections to Binance, Bybit and OKX, drop
-- the copies that redundant connections deliver, check each venue's sequence rule and send depth
-- updates, quotes and health verdicts as frames (md_wire) to the core (md_core). There the ingress binds
-- a peer to a venue's slot by its greeting and puts its messages into the slot's queue, which the
-- consolidator empties. The core keeps one depth book per venue and instrument, a
-- standing consolidated book that is repaired by the level changes of one venue at a time or rebuilt by
-- a full merge, and a standing best bid and offer over the venues' quotes; the fills that are published
-- are walks over the consolidated book.
--
-- Files and the code they model:
--   Base        helpers: lists over the native numbers, Boolean tests, int64_t (Base.Int), bytes of a
--                 string (Base.Text)
--   Types       types/venue.h, md_core/types.h, md_core/venue_health.h: records and enums
--   Venues      types/venue.h: InstrumentKey's packing, VenueConverter, market and instrument names
--   Registry    types/venue_registry.h: VenueRegistry; Registry.Symbols types/instrument_registry.h:
--                 InstrumentRegistry, NormalizeSymbol, ValidateSymbol
--   Health      md_core/venue_health.h: ClassifyVenue, ClassifyFeed
--   Book        md_core/flat_order_book.h and .cpp: FlatOrderBook, ApplyUpdate, ApplySide, Relocate
--                 (apply_update, apply_side, relocate), BestBid and BestAsk, the reversed views
--   Bbo         md_core/consolidated_bbo.h and .cpp: UpdateBBOWithQuote, ComputeBBOFromQuotes, ComputeBBO
--   Merged      md_core/consolidated_book.h: MergedLevel and Book; Merged.Held says what a side holds
--   Merge       md_core/consolidated_book.cpp: MergeBooks (merge_books, merge_loop, fill_level)
--   Fill        md_core/consolidated_book.cpp: FillToNotional, FillToBps and their band versions
--   State       md_core/consolidated_state.h and .cpp: ApplyDepthDelta (apply_changes,
--                 apply_one_change), FullRebuild, StampForPublish
--   Core        md_core/md_core.h and .cpp, provider_message.h. Core.Ingest: ProcessUpdate, ProcessQuote,
--                 ProcessHealth; Core.Membership: Init, RegisterVenueName, ProcessRegistration,
--                 RemoveVenue; Core.Queues: the Enqueue calls, DrainOnce (drain_once, dispatch)
--   Spsc        md_core/spsc_queue.h: TryPush and TryPop as sequences of atomic steps
--   Dedup       md_provider/seq_dedup.h and .cpp: SeqDedup
--   Continuity  md_provider/continuity.h and .cpp: the venues' sequence rules, ReconcileBinanceSnapshot
--   Binance     md_provider/binance/binance_provider.cpp: the depth stream's handlers
--   Providers   md_provider/bybit/bybit_provider.cpp, md_provider/okx/okx_provider.cpp: the depth
--                 streams' handlers (on_bybit_message, on_okx_message)
--   Decimal     md_provider/decimal.h: ParseScaledDecimal
--   Wire        md_wire/wire_format.h and wire_codec.cpp: the frames; Wire.Codec (hello, goodbye,
--                 book updates) and Wire.Events (quotes, verdicts) have the encoders and decoders
--   Sink        md_wire/zmq_provider_sink.h and .cpp: the calls that send, with the socket's answers as
--                 arguments
--   Ingress     md_wire/zmq_core_ingress.h and .cpp: HandleNotify, HandlePayload, Run (run_frames)
-- A component's file has its state and operations; the files below it are named for what they prove,
-- and Tests below it has runs and instances.
--
-- How the code is read. Prices, quantities and sequence numbers are uint64_t: natural numbers, with
-- % 2 ^ 64 (or 2 ^ 32, 2 ^ 128) wherever the source adds, subtracts, multiplies or narrows. int64_t is
-- Base.Int.ℤ, with its cast to uint64_t. A vector is the list of its elements in storage order; a fixed
-- array with a count is the list of the entries in use. Operations on an object take its record and
-- return the new one. The two sides of the consolidated book and of the best bid and offer are copies
-- of each other in the source, and one definition at its side or order here. std::sort is insertion
-- sort and std::lower_bound the first position that is not ahead.
--
-- Bounds. The loop of the merge recurses on max_depth, which is the source's own bound on it; a turn
-- consumes at least one level of the books, so that a bound of as many levels as there are merges them
-- all. Every other loop is a recursion on the list that it walks. Eight venues are the source's
-- kMaxVenues.
--
-- The ring of a queue is modelled on its own, with its interleavings, in Spsc. In Core a queue is what
-- stands in the ring, a call runs to its end before the next begins, and nothing is pushed during a pass;
-- of the 64 attempts of an enqueue the first decides, then. The invariant of Core speaks of a Core with
-- a book callback, as every process has, and of the versions of the quote verdicts below 2^64. A message
-- has to fit: its prices distinct on each side, its quantities uint64_t values, a verdict's stream one
-- that has a name, and the levels of all books together at most 2^64 - 1.
--
-- Not modelled: the providers' sockets, the handlers of the quote streams, the announcements of health;
-- the parsers; libzmq; the consolidator's thread with its doorbell, and its timings; the gRPC service,
-- configuration, clients, logging. RemoveInstrument, which nothing calls, is left out. Capacity
-- reservations and memory order are no part of the models that are here. A delta that names one price
-- twice on one side has no defined meaning in the code, and the statements about books exclude it.
pub mod Base
pub mod Types
pub mod Bbo
pub mod Binance
pub mod Book
pub mod Continuity
pub mod Core
pub mod Decimal
pub mod Dedup
pub mod Fill
pub mod Health
pub mod Ingress
pub mod Merge
pub mod Merged
pub mod Providers
pub mod Registry
pub mod Sink
pub mod Spsc
pub mod State
pub mod Venues
pub mod Wire
