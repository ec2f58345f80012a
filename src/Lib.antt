-- ===== src/Lib.antt =====
-- rtt_http: an HTTP server that publishes the components of an Orocos RTT application as JSON
-- resources.
--
-- The parts of the program, and the files that model them:
--
-- - src/codec_context.cpp, `validUtf8`: Utf8.antt. Utf8/Scalars.antt defines the encoding on its
--   own, and Utf8/Laws.antt compares the two.
-- - src/object_model.cpp, the names and paths of resources (`validName`, `encodeSegment`,
--   `canonicalRequestPath`, `childPath`): Url.antt. A text is the list of its bytes, a position
--   in it is the list that is left.
-- - include/rtt/http/codec_context.hpp, include/rtt/http/typed_codec.hpp, `accountJsonString` of
--   src/type_protocol.cpp and `validateOutput` of src/codec_context.cpp: Codec.antt and the
--   modules below it. A conversion is a function of the `CodecContext` to a value or an error
--   and the context behind it. Doubles are a type parameter; what the code asks of a double is a
--   record of functions (`DoubleOps`) with C++'s guarantee about casts as the named hypothesis
--   `IsExact`. The walk of `validateOutput` runs on fuel, and the number of values in the
--   document is enough. `DuplicateHandler`, `parseJson` and `serializeJson` of
--   src/codec_context.cpp are in Codec/Parse.antt and Codec/Serialize.antt; what Boost's parsers
--   and serialiser do with a text, and whether they exceed the allocation budget, is an argument. Codec/Budget.antt is `BudgetResource`.
-- - include/rtt/http/type_protocol.hpp and src/type_protocol.cpp: Registry.antt and the modules
--   below it. Registry/Descriptor.antt has `validateRegistration`, Registry/Identity.antt the
--   fingerprints, Registry/Protocols.antt the registry's functions, Registry/Freeze.antt the
--   search of `freezeTypeCatalog`, on fuel: one more than twice the number of types and
--   dependencies is enough. RTT's `TypeInfo` is a record of operations, with what the registry
--   relies on as the record `IsTypeInfo`; Registry/Protocols/Steps.antt has the sequences of
--   calls.
-- - src/canonical_types.cpp: Registry/Canonical.antt.
-- - src/object_model.cpp, the publications, and src/server.cpp, `publishComponent`,
--   `isPublished` and `publicationDiagnostics`: Publication.antt; `ObjectModel::types`:
--   Publication/Types.antt, on fuel: one more than the number of references and dependencies is
--   enough.
-- - include/rtt/http/server_options.hpp, `validateOptions` and `endpointUrl` of src/server.cpp:
--   Options.antt.
-- - src/operation_executor.cpp: Executor.antt has one function for each critical section of the
--   executor's threads, Executor/Steps.antt their interleavings. A worker that is in a call or in `finish` takes nothing, and
--   the reaper returns behind a shutdown. Invocations live in a heap of
--   cells, since the queue, the pending list and the threads share them by pointer. The answers
--   of RTT (`call`, `evaluate`, `collectIfDone`) are arguments of the steps.
--   Executor/Phases.antt and Executor/Life.antt follow one invocation through every
--   interleaving; Executor/Drain.antt ends a drain by a measure that decreases.
-- - src/operation_executor.cpp, `prepareInvocation`: Preparation.antt. What the codecs and RTT's
--   callers answer is a record.
-- - src/server.cpp, `Server::Impl` as far as it starts, stops and shuts down: Lifecycle.antt,
--   with the interleavings in Lifecycle/Steps.antt and the invariant in
--   Lifecycle/Invariant.antt. `run_shuts` is the callback of the task queue. Nothing is built on
--   a `stop()` of the listener in front of its accept loop. Of the executor it sees the width and the number of pending
--   operations.
-- - src/server.cpp, `preflight` and `handle`: Http.antt and Http/Handle.antt. What the object
--   model, the codecs, the executor and RTT answer during one request is a record of answers. A
--   wait for an operation is the list of what its turns read.
-- - src/server.cpp, `NetworkPool`: Network.antt, with its interleavings in Network/Laws.antt.
--
-- The parts use each other as in the program: the codecs and the paths use `validUtf8`,
-- `preflight` uses the paths, `handle` uses `preflight` and the values of the codecs, `start`
-- uses the options, the canonical protocols are registered with the registry, and the
-- publications describe the types of its catalog.
--
-- Not modelled: cpp-httplib, Boost.JSON's parser and serialiser, sockets, TLS and RTT itself,
-- which are not part of the repository; C++ exceptions inside `handle`; the floating point codec
-- and the reflected codecs; what a component's services look like when they are described; logging,
-- tests and the build.
mod Common
pub mod Utf8
pub mod Url
pub mod Codec
pub mod Options
pub mod Executor
pub mod Lifecycle
pub mod Http
pub mod Network
pub mod Registry
pub mod Publication
pub mod Preparation
