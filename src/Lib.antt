-- ===== src/Lib.antt =====
-- RevDash reads a car's OBD-II telemetry through an ELM327 adapter, a recording or a simulator. This
-- library models the parts of its core on which the rest of the program stands, and the protocol layer
-- in full: a request goes out when the scheduler of the driver allows it, the adapter's answer becomes a
-- message, and the decoders turn messages into samples, trouble codes and vehicle data.
--
-- Parts and files:
--   headers/revdash/core/error.hpp            Core/Error: error codes and `tl::expected` as `Result`
--   headers/revdash/core/types.hpp            Core/Types: addresses, requests, `ObdMessage::create`
--   headers/revdash/core/telemetry_types.hpp  Core/Telemetry: metrics, units, samples
--   headers/revdash/core/diagnostic_types.hpp Core/Diagnostics: trouble codes, frames, ECU metadata; its
--                                             Records: findings, snapshots, Mode 04 records
--   headers/revdash/core/latest_telemetry_store.hpp
--                                             Core/Store: the latest samples, and reads of a snapshot
--   headers/revdash/core/metric_aggregator.hpp
--                                             Core/Aggregator: rolling windows and qualities
--   headers/revdash/core/data_source.hpp      Core/Source: configurations of sources
--   src/core/async_data_source.cpp            Core/AsyncSource: the worker of a source
--   src/protocol/isotp_trace.cpp              Protocol/IsoTp: Frames (`parseIsoTpTraceFrame`),
--                                             Reassembler (`accept`, `expire`, `reset`), Segment
--                                             (`makeIsoTpTraceFrames`)
--   src/protocol/mode01.cpp                   Protocol/Mode01: Catalog, Decode
--                                             (`decodeMode01Response`), Support (bitmaps, requests)
--   src/protocol/diagnostics.cpp              Protocol/Diagnostics: Service and Mode 04, Dtc (Modes 03
--                                             and 07), FreezeFrame (Mode 02), Metadata (Mode 09)
--   src/drivers/elm327/pid_scheduler.cpp      Drivers/Scheduler
--   src/drivers/elm327/elm327.cpp             Drivers/Prompt: `ElmPromptParser`
--   src/core/engine_service.cpp               Engine: State, Operation (`beginScan`, `identify`), Finish
--                                             (`finishDiagnosticRequest` and what ends an operation),
--                                             Messages (`processPackets`, `handleDiagnosticMessage`),
--                                             Identity and Clear (`prepareClear`,
--                                             `confirmClear`), Link (sources, reconnection,
--                                             epochs), Run (turns and calls)
-- The definitions bear the names of the functions, in snake case. The other files beside them hold the
-- theorems, and the files named Tests hold runs and the theorems at concrete inputs. Prelude has what
-- all of them share: lists over native numbers, dictionaries, Boolean tests.
--
-- How the code is modelled:
--   * A byte is a number below 256; shifts and masks are division and remainder by powers of two. A
--     16-bit length keeps its wrap-around. Time points and durations are natural numbers of
--     nanoseconds, those of the scheduler's averages milliseconds; neither is negative, and 64 bits
--     hold them in any run, so their overflow is not written out.
--   * `double` is a parameter: a type with the operations that the decoders use (Core/Float). What a
--     theorem needs of them is a hypothesis of its own.
--   * A member function that changes its object takes it and returns it. `std::unordered_map` is an
--     association list without order; a null pointer that is called is `none`.
--   * A text that is built from bytes of the vehicle is a list of bytes; other texts are strings.
--   * The loops over Mode 09 records run on fuel, one more than the number of bytes, and each round
--     passes a record of 5 or 17 bytes. All other loops are structural.
--   * A worker thread runs one posted operation at a time. Each is a function from the state to effects
--     and the state after; a completion is named by a number, and an effect says that it is called. A
--     run is any list of operations, so that every order in which they are posted is covered; an
--     operation reads its clocks and the state of the source once, as an argument.
--   * The engine keeps of its source the type and the configuration: what it asks of the source is an
--     effect, and what the source answers is a call. The rule evaluator is an interface with a state of
--     its own; a DTC database is the lookup function that the engine uses of it.
--   * `std::sort` of values is an insertion sort by `<`; `std::sort` with `std::unique` is
--     one that drops equal items.
--
-- Not modelled: clocks, threads and timers, raw transport frames, hashes; the engine's commands that only
-- forward to a playback or synthetic source, its recorder thread and the historical records of playback;
-- and the parts around these: the command queue and the serial transport of the ELM327 driver, queues,
-- rules, the DTC database, recording, export, playback and simulation. The command line and the Qt
-- application print and draw what those compute.
pub mod Prelude
pub mod Core
pub mod Protocol
pub mod Drivers
pub mod Engine
