-- ===== src/Lib.antt =====
-- Verification of postboy: a runtime that runs a graph of message processors, one thread each,
-- with queues between them and metrics about them.
--
-- A postboy owns a processor and a thread. The thread calls Process until callNumber is reached or a
-- request stops, resumes, samples or finishes it. Processors have input and output ports, which hold
-- queues; a queue counts the output ports that hold it, and a consumer's Take ends when that count
-- is zero. Metrics are families of counters, gauges and histograms, held by a registry, and are written
-- in the Prometheus text format.
--
-- Prelude            lists, options and Boolean tests over native numbers; strings as bytes
-- Concurrency/Spsc   src/common/concurrency/spsc_queue.hpp. The record has the class's members, with the
--                    slots as a function from indices to optional values. try_push and try_pop are
--                    TryPush and TryPop; Spsc/Threads has each thread's accesses, one step each, also
--                    of the waiting Push and Pop and of Close. Spsc/Invariant is what every step keeps;
--                    Spsc/Runs is about one thread that calls them and Close.
-- Concurrency/Mpsc   src/common/concurrency/mpsc_unbounded_intrusive_lock_free_stack.hpp and _queue.hpp:
--                    one access of a producer or the consumer a step, on a store of links.
-- Concurrency/ByteQueue, Concurrency/Spinlock
--                    src/common/concurrency/spsc_byte_queue.hpp and spinlock.hpp.
-- Intrusive          src/common/intrusive. Chain: links between nodes. ForwardList: forward_list.hpp.
--                    List: list.hpp. A node is a number and null is 0.
-- Postboy            src/postboy/base/postboy.hpp and postboy.cpp. State: PostboyState and the requests'
--                    compare-and-exchange loops. Runner: Init, Run, and RunImpl as a step function with
--                    a place for every load, store and call. Lifecycle: all that may happen to a postboy.
-- Graph              src/postboy/base/queues, processor.cpp, putable_processor.hpp, takeable_processor.hpp.
--                    Queues: SetImpl and Clear of the boxed queues. Processor: linking, unlinking and
--                    validity of ports. Binding: binding.cpp and typed_binding.hpp. Runtime:
--                    src/postboy/runtime/runtime.cpp. Traffic, SharedTraffic: the accesses of Put and
--                    Take of queues/spsc.hpp and queues/mpmc.hpp, and their Puts the loops. Prepared:
--                    src/postboy/prepared/prepared.cpp. A queue is known by its place in a list, a postboy by its name; an exception is a Failure beside the state that it
--                    leaves.
-- Prometheus         src/postboy/prometheus_metrics. Names: check_names.cpp. Histogram: histogram.hpp.
--                    Text: text_serializer.cpp. Family: family.cpp. Registry: registry.cpp.
--                    Protobuf: proto_serializer.cpp. Gateway: gateway.cpp. A failed VERIFY is none.
-- Api                bin/api.cpp: the handlers and routes of the HTTP interface, on the runtime and the
--                    postboys' threads, and the percentiles of a sample.
-- Csv                src/common/csv: Reader and Writer, and the files' two classes.
-- ConnectionPull     src/common/http/connection_pull.cpp: the pool's stacks and its count of connections.
-- Notifiers          src/postboy/notifiers/base_message_notifier/message_notifier.cpp.
-- ThreadManager      src/thread_manager/thread_manager.cpp.
-- InstrumentManager  src/instrument_manager: the table of instruments, and Load by many threads.
-- WebSocket          src/websocket/client.cpp. A client's functions and events; Messages: what one client sends
--                    and receives; Sharing: the contexts that the clients of an event loop share.
-- Http               src/common/http/sync_request.cpp and async_request.cpp, over the library's answers.
-- Processors         src/processors: Process of each one; Copy: a file reader and a file writer with a queue
--                    between them; Counting: the range; Latency: the latency counter.
-- Util/Quantiles     src/common/util/quantiles.hpp: Calculate.
--
-- Bounds and fuel. Indices and producer counts are 64-bit and wrap; the theorems on the ring say where
-- they need fewer than 2^64 values or calls. A histogram's cumulative count is an int of 32
-- bits. The undisturbed request loop has fuel for three rounds, and needs two; a postboy left
-- alone has fuel for 2 * callNumber + 10 steps, and needs no more. The byte ring's count is an int; its
-- theorem asks for fewer than 2^31 cells. The table of instruments is read with fuel for one row more than the
-- file has bytes, and UnlinkAll runs with fuel for one round more than the list has nodes; both are enough.
-- A range's theorem asks for an end of at most 2^63, below which its int64_t does not overflow.
--
-- Where the code takes a view's data for a string, the model cuts it at the first zero byte. The pool's Pop and
-- Push of a stack are one step each, which leaves out a connection that is popped and pushed between another Pop's
-- load and exchange.
--
-- Not modelled: atomics are sequentially consistent here, so the weaker memory orders of the source are
-- not covered. Doubles and their printing, curl, JSON, trimming, the tokenizer, the system calls and
-- the third-party queues are parameters, and so is what boost and libwebsockets answer. Machine contexts and
-- reference counts are copies of other projects' libraries. The shell runner, the opening of files and the
-- clock are left out, and so is, for now, the rest of the repository's own code: the gauge, the wait group,
-- views and the websocket processor.
pub mod Prelude
pub mod Api
pub mod Http
pub mod Processors
pub mod WebSocket
pub mod ThreadManager
pub mod Notifiers
pub mod Csv
pub mod ConnectionPull
pub mod Concurrency
pub mod Intrusive
pub mod Postboy
pub mod Graph
pub mod InstrumentManager
pub mod Prometheus
pub mod Util
