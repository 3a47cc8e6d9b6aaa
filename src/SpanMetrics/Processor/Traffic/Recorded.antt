-- ===== src/SpanMetrics/Processor/Traffic/Recorded.antt =====
-- The families of metrics through a span
-- (processor/signozspanmetricsprocessor/processor.go: aggregateMetricsForSpan).
use Prim.Native.Nat.{ℕ, ◌+◌, ◌≤◌, ◌<◌, ◌^◌}
use Prim.Native.String.{String}
use mathlib.Core.List.{[], ◌∷◌}
use mathlib.Core.Logic.{inl, inr}
use mathlib.Core.Option.{some}
use mathlib.Core.Path.{◌≡◌, refl}
use native.Mathlib.Omega.{arith}
use otel_collector.Common.Dict.{lookup}
use otel_collector.Common.Tests.{Option-cases, Bool-cases, comparable_string}
use otel_collector.SpanMetrics.Address.{get_remote_address}
use otel_collector.SpanMetrics.Cache.{IsLru}
use otel_collector.SpanMetrics.Family.{Family}
use otel_collector.SpanMetrics.Family.Sound.{IsSound, IsSound-mono, record_span-IsSound}
use otel_collector.SpanMetrics.Histogram.{HistogramData, new_histogram, observe}
use otel_collector.SpanMetrics.Histogram.Counts.{IsValid, new_histogram-IsValid, observe-IsValid}
use otel_collector.SpanMetrics.Key.{Attributes, Span, Services}
use otel_collector.SpanMetrics.Processor.{
  Library, Config, Histograms, Processor, latency_of, named, custom, record_latency, record_exp,
  is_client, is_server, record_external, record_db, add_span,
}

module _ (lib : Library) (laws : IsLru lib.lru) (cfg : Config lib) where
  open lib use {Value, conventions, remote, floats, lru, Exp, new_exp, update_exp}

  -- A histogram is valid and has counted at most n latencies.
  abbrev pub IsCounted : ℕ → HistogramData floats → Type 0
  IsCounted n h = IsValid floats cfg.latency_bounds h × (h.count ≤ n)

  abbrev pub IsAny : Exp → Type 0
  IsAny e = Unit

  -- After at most n spans, every family has its labels, and its histograms their counts.
  pub record IsGood (n : ℕ) (p : Processor lib) : Type 0 where
    pub latency : IsSound lru (IsCounted n) p.latency
    pub calls : IsSound lru (IsCounted n) p.calls
    pub external_calls : IsSound lru (IsCounted n) p.external_calls
    pub db_calls : IsSound lru (IsCounted n) p.db_calls
    pub exp : IsSound lru IsAny p.exp

  IsCounted-suc : (n : ℕ) (h : HistogramData floats) → IsCounted n h → IsCounted (n + 1) h
  IsCounted-suc n h counted = (counted.0, omega (arith, counted.1))

  IsSound-suc :
      (n : ℕ) (x : Histograms lib) → IsSound lru (IsCounted n) x → IsSound lru (IsCounted (n + 1)) x
  IsSound-suc n x sound =
      IsSound-mono lru (IsCounted n) (IsCounted (n + 1)) x (IsCounted-suc n) sound

  -- A latency is recorded without a panic.
  record_latency-IsSound :
      (n : ℕ) (span : Span Value) (key : String) (labels : Attributes Value) (x : Histograms lib)
      → n + 1 < 2 ^ 64
      → IsSound lru (IsCounted n) x
      → (y : Histograms lib) × (record_latency lib cfg span key labels x ≡ some y)
        × IsSound lru (IsCounted (n + 1)) y
  unfolding record_latency
  record_latency-IsSound n span key labels x small sound =
      let latency = floats.millis (latency_of lib span) in
      record_span-IsSound lru laws (IsCounted n) (IsCounted (n + 1))
        (new_histogram floats cfg.latency_bounds)
        (observe floats cfg.latency_bounds latency span.trace_id span.span_id) key labels x
        (new_histogram-IsValid floats cfg.latency_bounds, unfold new_histogram in omega arith)
        (λ h counted.
          let (h', e, valid, more) =
            observe-IsValid floats cfg.latency_bounds latency span.trace_id span.span_id h counted.0
              (omega (arith, counted.1, small)) in
          (h', e, (valid, omega (arith, more, counted.1))))
        (IsCounted-suc n) sound

  record_external-IsSound :
      (n : ℕ) (service : String) (span : Span Value) (resource : Attributes Value)
      (x : Histograms lib)
      → n + 1 < 2 ^ 64
      → IsSound lru (IsCounted n) x
      → (y : Histograms lib) × (record_external lib cfg service span resource x ≡ some y)
        × IsSound lru (IsCounted (n + 1)) y
  unfolding record_external
  record_external-IsSound n service span resource x small sound =
      elim (Bool-cases (is_client lib span.kind)) [
        | inr other ↦ (x, rw (record_external, other) refl, IsSound-suc n x sound)
        | inl is_call ↦ elim (Option-cases (get_remote_address remote span.attributes)) [
          | inl local ↦ (x, ground (arith, is_call, local), IsSound-suc n x sound)
          | inr (addr, e) ↦
              let (key, labels) =
                custom lib cfg service span cfg.external_call_dimensions resource (addr ∷ [])
                  (("address", conventions.value_str addr) ∷ []) in
              let (y, done, kept) = record_latency-IsSound n span key labels x small sound in
              (y, ground (arith, is_call, e, done), kept)
        ]
      ]

  record_db-IsSound :
      (n : ℕ) (service : String) (span : Span Value) (resource : Attributes Value)
      (x : Histograms lib)
      → n + 1 < 2 ^ 64
      → IsSound lru (IsCounted n) x
      → (y : Histograms lib) × (record_db lib cfg service span resource x ≡ some y)
        × IsSound lru (IsCounted (n + 1)) y
  unfolding record_db
  record_db-IsSound n service span resource x small sound =
      elim (Bool-cases (is_server lib span.kind)) [
        | inl serves ↦ (x, rw (record_db, serves) refl, IsSound-suc n x sound)
        | inr other ↦ elim (Option-cases (lookup "db.system" span.attributes)) [
          | inl plain ↦ (x, ground (arith, other, plain), IsSound-suc n x sound)
          | inr (a, e) ↦
              let (key, labels) =
                custom lib cfg service span cfg.db_call_dimensions resource [] [] in
              let (y, done, kept) = record_latency-IsSound n span key labels x small sound in
              (y, ground (arith, other, e, done), kept)
        ]
      ]

  record_exp-IsSound :
      (service : String) (span : Span Value) (resource : Attributes Value) (services : Services)
      (x : Family lru Exp)
      → IsSound lru IsAny x
      → (y : Family lru Exp) × ((record_exp lib cfg service span resource services x).0 ≡ some y)
        × IsSound lru IsAny y
  unfolding record_exp
  record_exp-IsSound service span resource services x sound =
      elim (Bool-cases cfg.enable_exp_histogram) [
        | inr off ↦ (x, ground (arith, off), sound)
        | inl on ↦
            let (key, labels, after) =
              named lib cfg service span cfg.exp_dimensions resource services in
            let (y, done, kept) =
              record_span-IsSound lru laws IsAny IsAny new_exp
                (λ e. some (update_exp (floats.millis (latency_of lib span)) e)) key labels x tt
                (λ e any. (update_exp (floats.millis (latency_of lib span)) e, refl, tt))
                (λ e any. tt) sound in
            (y, ground (arith, on, done), kept)
      ]

  pub add_span-IsGood :
      (n : ℕ) (service : String) (span : Span Value) (resource : Attributes Value)
      (p : Processor lib)
      → n + 1 < 2 ^ 64
      → IsGood n p
      → (q : Processor lib) × (add_span lib cfg service span resource p ≡ some q) × IsGood (n + 1) q
  unfolding add_span
  add_span-IsGood n service span resource p small good =
      let (key, labels, s₁) = named lib cfg service span cfg.dimensions resource p.services in
      let (exp', s₂) = record_exp lib cfg service span resource s₁ p.exp in
      let (call_key, call_labels, s₃) =
        named lib cfg service span cfg.call_dimensions resource s₂ in
      let (l, l_done, l_kept) =
        record_latency-IsSound n span key labels p.latency small good.latency in
      let (e, e_done, e_kept) = record_exp-IsSound service span resource s₁ p.exp good.exp in
      let (c, c_done, c_kept) =
        record_latency-IsSound n span call_key call_labels p.calls small good.calls in
      let (x, x_done, x_kept) =
        record_external-IsSound n service span resource p.external_calls small
          good.external_calls in
      let (d, d_done, d_kept) =
        record_db-IsSound n service span resource p.db_calls small good.db_calls in
      (
        record { services = s₃; latency = l; exp = e; calls = c; external_calls = x; db_calls = d },
        rw (l_done, e_done, c_done, x_done, d_done) refl,
        record {
          latency = l_kept;
          calls = c_kept;
          external_calls = x_kept;
          db_calls = d_kept;
          exp = e_kept;
        },
      )
