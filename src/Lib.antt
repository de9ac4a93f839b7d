-- ===== src/Lib.antt =====
-- The core of tidewatch, an agent that collects metrics on a device, keeps them in SQLite and uploads
-- them to VictoriaMetrics. Collectors hand their metrics to the store; a loop reads batches of pending
-- rows, sends them in chunks, and marks the rows whose metrics the server has taken; a health checker
-- and a collector of meta-metrics are told how each round went; all of it follows a configuration.
--
-- What models what (a child of a module stands in a folder of the module's name):
-- - Base: Boolean tests, lists over the native numbers, Go strings as byte lists, Go maps as association
--   lists, int64 as signed integers, sorting as an interface, decimal printing and scanning.
-- - Models: internal/models/metric.go. A float64 is its bit pattern.
-- - Storage: internal/storage/storage.go. Table has the metrics table, with the rows in the order of
--   their insertion and the AUTOINCREMENT sequence; Codec what comes from elsewhere (JSON, SHA-256, the
--   driver) and the errors; Insert generateDedupKey, serializeTags, Store and StoreBatch; Select Query,
--   QueryUnuploaded and the aggregates; Update MarkUploaded and DeleteBefore; Invariant and History the
--   well-formedness of the table along any calls; Migrate the schema migrations with their backfills, Open
--   NewSQLiteStorage; Wal the WAL checkpoints and the routine that makes them. Each call of the driver may fail, which is an
--   input.
-- - Uploader: internal/uploader/victoriametrics.go (Naming: sanitizeMetricName, Jsonl: BuildVMJSONL,
--   Chunks: BuildChunks) and internal/uploader/uploader.go (Errors: uploadChunk's errors and
--   parseRetryAfter, Retry: uploadChunkWithRetry and calculateBackoff, Upload: UploadAndGetIDs, Upload
--   and UploadBatch). The answers of the server and the state of the context are inputs.
-- - Pipeline: cmd/tidewatch/main.go. Rounds has uploadMetrics, Loops collectAndStore and the ticks of
--   runUploadLoop, Background updateStorageHealth, checkClockSkew, the ticks of runMetaMetricsLoop and
--   normalizeStoragePath, Turns the loops in any order; Outbox states what the store and the uploader
--   promise together, as steps on a bag of pending rows, which the loops implement; the other modules
--   prove what these do to the table and to the reports.
-- - Health: internal/health/health.go (Checker: thresholds and updates, Overall: calculateOverallStatus,
--   GetReport and the status codes).
-- - Monitoring: internal/monitoring/metrics.go (Collector: the recording methods and CollectMetrics,
--   Percentiles: calculatePercentiles) and internal/monitoring/clockskew.go (ClockSkew).
-- - Parsing: the functions of strings and strconv that the collectors and the lock file use.
-- - Collectors: those of internal/collector on Linux, from the texts of the files of /proc (Cpu: cpu.go and
--   cpu_linux.go, Network: network.go and network_linux.go, Memory: memory.go and memory_linux.go, Disk:
--   disk.go), and the clock collector of clock.go (Clock).
-- - Watchdog: internal/watchdog/watchdog.go.
-- - Config: internal/config/config.go, and the part of main that turns the retry block into the settings
--   of NewHTTPUploaderWithConfig (Uploads).
-- - LockFile: internal/lockfile/lockfile.go (Acquire, Release, GetLockPath, and in Pid ReadPID and
--   IsProcessRunning), and in Exclusion processes that take and release the lock as main does.
-- - Startup: main and initializeCollectors of cmd/tidewatch/main.go, as the list of what main does from
--   the configuration file to its exit. The loops that it starts are the turns of Pipeline.
-- - Witnesses: the theorems at concrete inputs.
--
-- Bounds and fuel: BuildChunks recurses with its chunk size as fuel, which is enough since every
-- bisection halves it and a slice of one metric is not split; the loop over slices has as many rounds
-- as there are metrics; uploadChunkWithRetry recurses on the attempts that are left. Counters and
-- durations wrap around as int64 does where the code can reach it. Percentile ranks and the comparison
-- of seconds are exact arithmetic, as the modules that have them explain.
--
-- Parameters: the SQLite driver's failures, the order of ties under ORDER BY and sort.Slice (any sorting
-- function), JSON, gzip and SHA-256, float64 arithmetic in the backoff, > on float64 in the percentiles,
-- time.ParseDuration, YAML, regular expressions, files, clocks and random numbers.
--
-- Not modelled: the system collector and those that call sysctl or make test data, logging, the flags of
-- main, HTTP servers and headers, and concurrency within a method, since each takes a mutex or
-- a transaction.
pub mod Base
pub mod Parsing
pub mod Models
pub mod Storage
pub mod Uploader
pub mod Pipeline
pub mod Health
pub mod Monitoring
pub mod Collectors
pub mod Config
pub mod LockFile
pub mod Watchdog
pub mod Startup
pub mod Witnesses
