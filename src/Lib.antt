-- ===== src/Lib.antt =====
-- The call detail record processor: records are read from files, folded batch by batch, and written
-- as counters to a store; a gateway answers queries about the counters.
--
-- The parts, by the files that model them:
--   * Record: `inc/cdr_record.hpp`.
--   * Constants: the names of `inc/constants.hpp` that the writers and the readers share.
--   * Charconv: `std::from_chars` and `std::to_chars` as the code uses them.
--   * Parser: `src/parser/csv_parser.cpp`; its time conversion, with `timegm`, in Parser/Dates.
--   * Source/File: `src/source/file_source.cpp` and the draining loop of
--     `src/ingest/file_ingestor.cpp`. The source's state is the record FileSource, whose `rest` is
--     the text between `m_pos` and `m_end`; `next` is `FileSource::next`.
--   * Aggregate/Delta: `src/aggregate/aggregator.cpp` and `inc/aggregate/delta.hpp`; `fold` is
--     `Aggregator::fold`. An unordered map is an association list without an order of its own.
--   * Aggregate/Totals: `src/aggregate/totals.cpp`; the run's totals are a function from the atomic
--     counters, and a merge is the list of its atomic additions.
--   * Aggregate/Writers: `src/aggregate/aggregate_writer.cpp` and `src/aggregate/rank_writer.cpp`.
--   * Store: the interface `inc/store/istore.hpp` over an abstract state, an argument of all that
--     writes through it.
--   * Store/Redis: `src/store/redis_store.cpp`, the state of one thread as a record, over a connection
--     (RedisConn and hiredis) whose operations are parameters.
--   * Sink: `src/sink/aggregate_sink.cpp`, which joins the fold, the totals and the writers.
--   * Json: the builder `src/util/json.cpp`.
--   * Query/Params, Query/Links: `src/query/query_params.cpp` and `src/query/links.cpp` with the
--     interface `inc/query/iquery_store.hpp`.
--   * Query/Path: `src/query/services/path_service.cpp`, the search and its replies.
--   * Query/Reports: `src/query/services/query_service.cpp`.
--   * Query/Boards: `src/query/services/rank_service.cpp` and
--     `src/query/services/stats_service.cpp`.
--   * Query/Redis: `src/query/redis_query.cpp`, which fills the interface of the services; what the
--     server replies to a command is a parameter.
--   * Query/Gateway: `src/query/http_gateway.cpp`, from the path and parameters of a request to the
--     answer of the service behind its route; its `start` and `stop` in Query/Gateway/Listener.
--   * Source/RabbitConn and Source/Rabbit: `src/source/rabbit_conn.cpp`, over what rabbitmq-c
--     returns, and `src/source/rabbit_source.cpp`, over a list of deliveries.
--   * Ingest/Rabbit and Ingest/Backoff: the consumer thread of `src/ingest/rabbit_ingestor.cpp`;
--     what `m_stop` holds at each test, and what the connection does, are lists.
--   * Ingest/DirWatcher: `src/ingest/dir_watcher.cpp` and the loop of `FileIngestor::feed`; what the
--     system calls return is data.
--   * Ingest/File: `FileIngestor::process` and `dispose`, from a claimed file to the directory that it
--     ends in. Ingest/Lifecycle: `start` and `stop` of both ingestors, with their threads counted.
--   * Store/RedisConn: `src/store/redis_conn.cpp`, with the contexts made and freed, the clock and
--     the attempts to connect.
--   * Util/Pool: `src/util/thread_pool.cpp` as steps of its threads; a schedule is any list of steps.
--   * Util/Registry: the registries `src/parser/parser_factory.cpp`, `src/store/store_factory.cpp`,
--     `src/query/query_factory.cpp` and `src/ingest/ingestor_factory.cpp`, which have one form.
--   * Util/MappedFile: `src/util/mapped_file.cpp`, whose bytes the file source is opened on.
--   * Config: `src/config.cpp`, over the parsed file.
--   * Logger: `src/logger.cpp` and `inc/logger.hpp`; the time of a line is an argument.
--   * Program: `src/processor_main.cpp`, `src/gateway_main.cpp` and the loop of
--     `src/util/signal_waiter.cpp`, from an accepted configuration to the exit code.
--   * Tests: runs at concrete inputs.
--
-- Of the larger proofs: Query/Path/Levels, Hops, Rounds, Crowd, Shortest and Best lead from the
-- loops of the search to the length of its routes. Sink/Progress has the interface Durable, of a
-- store whose process can end at any time, by the commands that last in it; Store/Redis/Progress
-- fills it for RedisStore over the server of Store/Redis/Server, which keeps its transactions and has
-- one client; Sink/Apart and Sink/Marked are about the commands of a batch. In Ingest/File/Dying a
-- process that ends is `process` over a store whose later calls have no effect; Restarts and Once
-- are the client of Durable.
--
-- Numbers are natural numbers; a 64-bit counter is kept modulo 2^64 (`add64`). A text is the list of
-- its bytes. Loops over bytes run on fuel: `next` gives its loop one more than the number of bytes
-- that are left, and each round reads at least one; draining a source needs more fuel than bytes.
-- `walk` gives its loops the size of the trail, a bound on the subscribers on one way to its root.
--
-- The loops over lists of deliveries, polls and calls recurse on those lists; where one is at its end
-- the code is still in a call. The steps of a stopped pool are bounded by `work_left`.
--
-- Not modelled: elapsed times, the log lines of the components, the system calls of the file mapping
-- and of the watcher, hiredis, rabbitmq-c, cpp-httplib and toml++, which are parameters, the masking
-- of signals, and the generator and the web interface, which are programs in other languages.
mod Base
pub mod Constants
pub mod Charconv
pub mod Record
pub mod Parser
pub mod Source
pub mod Aggregate
pub mod Store
pub mod Sink
pub mod Json
pub mod Query
pub mod Ingest
pub mod Util
pub mod Config
pub mod Logger
pub mod Program
mod Tests
