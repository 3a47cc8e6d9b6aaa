-- ===== src/Lib.antt =====
-- otel_collector: a model of the collector's own logic, with the theorems that make it correct.
--
-- The collector is a distribution of the OpenTelemetry Collector. Its own components are processors,
-- exporters, receivers and a schema migrator; the parts modelled here are pure logic or state that one
-- method changes at a time. Each critical section of the source is one function on an explicit state.
--
-- TailSampler (processor/signoztailsampler): spans arrive in batches (ConsumeTraces: consume_traces),
--   are grouped by trace id, and wait on a map until the batcher of trace ids hands their id out; then
--   a tick (samplingPolicyOnTick: sampling_policy_on_tick) asks the policies in turn (makeDecision:
--   make_decision) and forwards the spans of sampled traces.
--   Trace, Scan: the data of a trace and the scans over its batches (internal/sampling/policy.go,
--     util.go). Filters, Memo, Limits: the policy evaluators (internal/sampling/*.go). Policy, Config:
--     evaluator.go and config.go. Batcher: internal/idbatcher/id_batcher.go. Processor, Setup:
--     processor.go.
--   The deletion queue and the channels are queues as lists; a send that would block and a panic are
--   none. Regular expressions, the LRU cache, the hash of a trace id's float threshold and the next
--   consumer are parameters.
-- Stanza (processor/signozlogspipelineprocessor/stanza): the log pipeline's copy of stanza.
--   Path: field paths in JSON dot notation (entry/field.go). Value, Body: the values that an entry
--     holds, and the body fields that read, write, merge and delete below a body, with the parsed body
--     kept in the attributes (entry/body_field.go). json.Unmarshal is a parameter. Maps are values:
--     two places that share one Go map are not told from two copies.
--   Cache: the memory cache of the regex parser, its limiter, and the parser over them
--     (operator/operators/regex/cache.go, parser.go, config.go). Expressions are a parameter.
--   Operator: what a transformer and a parser do with an entry, its error and a batch
--     (operator/helper/transformer.go, parser.go), over any fields and sub-parsers.
-- SpanMetrics (processor/signozspanmetricsprocessor): each span of a batch (ConsumeTraces,
--   aggregateMetrics: aggregate_metrics) is counted in up to five families of metrics, a map from keys
--   to histograms and a cache from keys to labels; an export (exportMetrics: export_metrics) collects
--   them and forgets the keys that the cache has evicted.
--   Cache: internal/cache/cache.go. Key: the keys and labels of a span, and the bound on services and
--     operations. Histogram, Family, Address: updateHistogram, the map and cache of a family, and
--     getRemoteAddress. Processor, Processor/Traffic: aggregateMetricsForSpan, aggregateMetrics,
--     buildMetrics and exportMetrics (processor.go).
--   A map is traversed in order of insertion. Floats, the LRU cache, the exponential histogram, regular
--   expressions and the parser of URLs are parameters.
-- Fingerprint (utils/fingerprint/fingerprint.go): the dimension hierarchy of a resource, the labels that
--   identify a resource (Identifier), and the synonyms of a label.
-- Metrics (exporter/signozclickhousemetrics, internal/common/fingerprint): a push (PushMetrics:
--   push_metrics) turns the points of all metrics into rows (prepareBatch: prepare_batch) for four tables,
--   and writes them (writeBatch: write_batch), with a cache of the series that were written.
--   Metrics: the parts of pdata that are read. Fingerprint, Labels: the FNV-1a hash of attributes, and the
--     labels as JSON (fingerprint.go, hash.go, label.go), with a reader for that JSON in Labels/Read.
--     Batch: the rows (batch.go). Process, with Points, Exponential and Prepare: processGauge to
--     processExponentialHistogram, and prepareBatch.
--     Write: writeTimeSeries, writeSamples, writeExpHist, writeMetadata, makeCacheKey.
--   Texts are lists of bytes. The clock is read once for a push. pcommon values, floats, the cache with its
--   expiry and what the connection answers are parameters; the tables are written side by side and share
--   no state, and their errors stand in the order of the tables.
-- Metering (pkg/metering, connectors/signozmeterconnector): what is billed for a push (CountPerResource:
--   count_per_resource; SizePerResource: log_size_per_resource, span_size_per_resource), and the connector
--   that adds it up for the dimensions of a resource (Connector: consume_traces, consume_metrics,
--   consume_logs) and exports it as metrics of its own (exportMetrics: export_meters). It stands on the
--   metrics of Metrics, and Samples compares the two. A JSON text's length and MapHash are parameters.
-- Flatten (utils/flatten/flatten.go): FlattenJSON (flatten_json), with the switch on a value
--   (add_value) and the loops over maps and slices (add_members, add_elements). Maps are lists in the
--   order in which they are ranged over. Leaves: the scalars of a value with their paths. Go's
--   conversions to float64 and fmt.Sprintf are parameters (Formats).
-- KeyCheck (pkg/keycheck): which keys of attributes are random (IsRandomKey: is_random_key) or cardinal
--   (IsCardinal: is_cardinal), and the loop over the segments between dots (segments_from). Regular
--   expressions, unicode and the decoding of runes are parameters (Patterns).
-- Common: Boolean tests, int64 with its wrap-around, lists over native numbers, maps as association
--   lists in order of insertion.
--
-- Loops are structural recursions; the one loop that waits on a condition, which makes room on the
-- map of traces, recurs on the deletion queue.
--
-- Not modelled: network and database input and output,
-- configuration factories, generated code, the copies of the Prometheus scraper.
pub mod Common
pub mod TailSampler
pub mod Fingerprint
pub mod Stanza
pub mod SpanMetrics
pub mod Metrics
pub mod Metering
pub mod Flatten
pub mod KeyCheck
