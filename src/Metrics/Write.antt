-- ===== src/Metrics/Write.antt =====
-- What a push writes to the database (exporter/signozclickhousemetrics/exporter.go: PushMetrics,
-- writeBatch, makeCacheKey). The four tables are written side by side, and share no state. What the
-- connection answers is a parameter, and so is the cache of series with its expiry.
pub mod Key
pub mod Series
use Prim.Native.Nat.{ℕ, zero, suc, ◌+◌, ◌*◌, ◌/◌, ◌%◌}
use mathlib.Core.Bool.{Bool, true, false, not, ◌||◌}
use mathlib.Core.List.{List, [], ◌∷◌, ◌++◌, map}
use mathlib.Core.Option.{Option, none, some}
use otel_collector.Common.Int.{ℤ, pos, negsuc, bits64}
use otel_collector.Common.Tests.{if◌then◌else◌, ltb}
use otel_collector.Common.Texts.{Text, ascii, has_prefix}
use otel_collector.Metrics.{Platform, ResourceMetrics}
use otel_collector.Metrics.Batch.{Sample, ExponentialHistogramSample, Ts, Metadata, Batch}
use otel_collector.Metrics.Labels.{Labels}
use otel_collector.Metrics.Process.Prepare.{prepare_batch}

-- strconv.FormatUint(n, 10): 20 digits are enough for a uint64.
unfoldable pub format_digits : ℕ → ℕ → Text → Text
format_digits zero n after = after
format_digits (suc fuel) n after = elim (ltb n 10) [
  | true ↦ (48 + n) ∷ after
  | false ↦ format_digits fuel (n / 10) ((48 + n % 10) ∷ after)
]

unfoldable pub format_uint : ℕ → Text
unfolding format_digits
format_uint n = format_digits 20 n []

unfoldable pub make_cache_key : ℕ → ℕ → Text
unfolding format_uint
make_cache_key a b = format_uint a ++ (b':' ∷ format_uint b)

-- `ms / 3600000 * 3600000`: the division cuts towards 0.
abbrev pub rounded : ℤ → ℤ
rounded (pos n) = pos (n / 3600000 * 3600000)
rounded (negsuc n) = elim (suc n / 3600000 * 3600000) [ zero ↦ pos 0 | suc m ↦ negsuc m ]

pub record TsRow : Type 0 where
  pub env : Text
  pub temporality : Text
  pub metric_name : Text
  pub description : Text
  pub unit : Text
  pub typ : Text
  pub is_monotonic : Bool
  pub fingerprint : ℕ
  pub unix_milli : ℤ
  pub labels : Text
  pub attrs : Labels
  pub scope_attrs : Labels
  pub resource_attrs : Labels
  pub normalized : Bool

abbrev pub ts_row : {V F : Type 0} → Platform V F → Ts → TsRow
ts_row p t = record {
  env = t.env;
  temporality = p.temporality_string t.temporality;
  metric_name = t.metric_name;
  description = t.description;
  unit = t.unit;
  typ = p.type_string t.typ;
  is_monotonic = t.is_monotonic;
  fingerprint = t.fingerprint;
  unix_milli = rounded t.unix_milli;
  labels = t.labels;
  attrs = t.attrs;
  scope_attrs = t.scope_attrs;
  resource_attrs = t.resource_attrs;
  normalized = false;
}

-- What the connection answers for one table.
pub record Connection (Row Err : Type 0) : Type 0 where
  pub prepare : Option Err
  pub append : Row → Option Err
  pub send : Option Err

-- The cache of series: whether it holds true for a key, and setting a key to true.
pub record SeriesCache (C : Type 0) : Type 0 where
  pub get : Text → C → Bool
  pub set : Text → C → C

-- The rows that were sent, and the error.
pub record Written (Row Err : Type 0) : Type 0 where
  pub sent : List Row
  pub error : Option Err

module _ {Row Err : Type 0} where
  -- The first row that cannot be appended ends the loop.
  unfoldable pub append_rows : Connection Row Err → List Row → Option Err
  append_rows conn [] = none
  append_rows conn (r ∷ rows) = elim (conn.append r) [
    | some e ↦ some e
    | none ↦ append_rows conn rows
  ]

  -- Sends the rows of the statement, unless there was an error.
  abbrev pub send_rows : Connection Row Err → Option Err → List Row → Written Row Err
  send_rows conn (some e) rows = record { sent = []; error = some e }
  send_rows conn none rows = elim conn.send [
    | some e ↦ record { sent = []; error = some e }
    | none ↦ record { sent = rows; error = none }
  ]

  -- Prepares a statement, appends the rows and sends them; no rows need no statement.
  unfoldable pub write_rows : Connection Row Err → List Row → Written Row Err
  unfolding append_rows
  write_rows conn [] = record { sent = []; error = none }
  write_rows conn (r ∷ rows) = elim conn.prepare [
    | some e ↦ record { sent = []; error = some e }
    | none ↦ send_rows conn (append_rows conn (r ∷ rows)) (r ∷ rows)
  ]

-- A sample of the exporter's own metrics is not billed.
unfoldable pub collects_usage : Text → Bool
collects_usage name = not (
    has_prefix name (ascii "signoz")
    || has_prefix name (ascii "chi")
    || has_prefix name (ascii "otelcol"))

module _ {F Err : Type 0} where
  -- The samples that count as usage: none if a sample cannot be appended.
  unfoldable pub usage_of : Connection (Sample F) Err → List (Sample F) → ℕ
  unfolding append_rows collects_usage
  usage_of conn [] = 0
  usage_of conn (s ∷ samples) =
      let rest = usage_of conn samples in
      elim (append_rows conn (s ∷ samples)) [
        | some e ↦ 0
        | none ↦ if collects_usage s.metric_name then 1 + rest else rest
      ]

  -- The usage is recorded before the rows are sent.
  unfoldable pub write_samples :
      Connection (Sample F) Err → List (Sample F) → Written (Sample F) Err × ℕ
  unfolding write_rows usage_of
  write_samples conn samples = elim conn.prepare [
    | some e ↦ (write_rows conn samples, 0)
    | none ↦ (write_rows conn samples, usage_of conn samples)
  ]

unfoldable pub cache_key : Ts → Text
unfolding make_cache_key
cache_key t = make_cache_key t.fingerprint (bits64 (rounded t.unix_milli))

-- The rows appended by the loop over the series, the cache and the error.
pub record Appended (C Err : Type 0) : Type 0 where
  pub rows : List TsRow
  pub cached : C
  pub error : Option Err

module _ {V F C Err : Type 0} (p : Platform V F) (cache : SeriesCache C) where
  -- A series that the cache holds is left out; one that is appended is put into the cache.
  unfoldable pub append_series : Connection TsRow Err → List Ts → C → Appended C Err
  unfolding cache_key
  append_series conn [] c = record { rows = []; cached = c; error = none }
  append_series conn (t ∷ ts) c = elim (cache.get (cache_key t) c) [
    | true ↦ append_series conn ts c
    | false ↦ elim (conn.append (ts_row p t)) [
      | some e ↦ record { rows = []; cached = c; error = some e }
      | none ↦
          let after = append_series conn ts (cache.set (cache_key t) c) in
          record after { rows = ts_row p t ∷ after.rows }
    ]
  ]

  unfoldable pub write_time_series : Connection TsRow Err → List Ts → C → Written TsRow Err × C
  unfolding append_series
  write_time_series conn [] c = (record { sent = []; error = none }, c)
  write_time_series conn (t ∷ ts) c =
      let a = append_series conn (t ∷ ts) c in
      elim conn.prepare [
        | some e ↦ (record { sent = []; error = some e }, c)
        | none ↦ (send_rows conn a.error a.rows, a.cached)
      ]

-- A row of a sketch, with the time of its insertion.
abbrev pub ExpHistRow : Type 0 → Type 0
ExpHistRow F = ExponentialHistogramSample F × ℤ

-- The connection, table by table.
pub record Connections (F Err : Type 0) : Type 0 where
  pub time_series : Connection TsRow Err
  pub samples : Connection (Sample F) Err
  pub exp_hist : Connection (ExpHistRow F) Err
  pub metadata : Connection Metadata Err

-- What a push leaves: the rows that were sent to each table, the usage, the cache and the errors.
pub record Pushed (F C Err : Type 0) : Type 0 where
  pub time_series : List TsRow
  pub samples : List (Sample F)
  pub exp_hist : List (ExpHistRow F)
  pub metadata : List Metadata
  pub usage : ℕ
  pub cached : C
  pub errors : List Err

abbrev pub join : {Err : Type 0} → Option Err → List Err → List Err
join none errs = errs
join (some e) errs = e ∷ errs

-- What pushing gives: a refusal after the shutdown, or what was pushed.
pub data Push (F C Err : Type 0) : Type 0 where
  shutdown_called : Push F C Err
  pushed : Pushed F C Err → Push F C Err

module _ {V F C Err : Type 0} (p : Platform V F) (cache : SeriesCache C) (now : ℤ) where
  -- The error of the metadata is not returned. The errors stand in the order of the tables.
  unfoldable pub write_batch : Connections F Err → Batch F → C → Pushed F C Err
  unfolding write_time_series write_samples write_rows
  write_batch conn b c =
      let (series, c') = write_time_series p cache conn.time_series b.ts c in
      let (samples, usage) = write_samples conn.samples b.samples in
      let sketches = write_rows conn.exp_hist (map (λ e. (e, now)) b.exp_hist) in
      let metadata = write_rows conn.metadata b.metadata in
      record {
        time_series = series.sent;
        samples = samples.sent;
        exp_hist = sketches.sent;
        metadata = metadata.sent;
        usage = usage;
        cached = c';
        errors = join series.error (join samples.error (join sketches.error []));
      }

  unfoldable pub push_metrics :
      Bool → Bool → Connections F Err → List (ResourceMetrics V F) → C → Push F C Err
  unfolding write_batch prepare_batch
  push_metrics closed enable_exp_hist conn md c = elim closed [
    | true ↦ shutdown_called
    | false ↦ pushed (write_batch conn (prepare_batch p enable_exp_hist now md) c)
  ]
