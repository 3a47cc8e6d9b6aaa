-- ===== src/Metering/Connector/Held.antt =====
-- What the connector holds of a signal
-- (connectors/signozmeterconnector/connector.go).
use Prim.Native.Nat.{ℕ, ◌+◌, ◌^◌, ◌≤◌, ◌<◌}
use mathlib.Core.Bool.{Bool, true, false}
use mathlib.Core.List.{List, [], ◌∷◌}
use mathlib.Core.Logic.{inl, inr}
use mathlib.Core.Option.{Option, none, some}
use mathlib.Core.Path.{◌≡◌, refl, sym, ap, ◌∙◌}
use native.Mathlib.Omega.{arith}
use otel_collector.Common.Dict.{lookup, insert}
use otel_collector.Common.Lists.{total}
use otel_collector.Common.Tests.{if◌then◌else◌, comparable_nat, Bool-cases}
use otel_collector.Common.Texts.{Text}
use otel_collector.Metering.Connector.{
  Signal, spans, data_points, logs, Tally, MeterMetric, tally_of, put_tally, add_int, MeterMetrics,
  entry_or, update_meter_metrics, MeterConnector, Meters, aggregate,
}

abbrev pub signal_eqb : Signal → Signal → Bool
signal_eqb spans spans = true
signal_eqb data_points data_points = true
signal_eqb logs logs = true
signal_eqb _ _ = false

-- What is held of a signal.
unfoldable pub held : Signal → MeterMetrics → ℕ
held s agm = total (λ e. (tally_of s e.1).count) agm

abbrev was : Signal → Option MeterMetric → ℕ
was s none = 0
was s (some m) = (tally_of s m).count

held-insert :
    (s : Signal) (key : ℕ) (m : MeterMetric) (agm : MeterMetrics)
    → held s (insert key m agm) + was s (lookup key agm) ≡ held s agm + (tally_of s m).count
unfolding held insert lookup
held-insert s key m [] = omega arith
held-insert s key m ((k, old) ∷ agm) = ground (arith, held-insert s key m agm)

was-le-held : (s : Signal) (key : ℕ) (agm : MeterMetrics) → was s (lookup key agm) ≤ held s agm
unfolding held lookup
was-le-held s key [] = omega arith
was-le-held s key ((k, old) ∷ agm) = ground (arith, was-le-held s key agm)

-- What a resource of one signal adds to another.
abbrev pub gained : Signal → Signal → ℕ → ℕ
gained s s' n = if signal_eqb s s' then n else 0

count-put_tally :
    (s s' : Signal) (t : Tally) (m : MeterMetric)
    → (tally_of s (put_tally s' t m)).count
      ≡ (if signal_eqb s s' then t.count else (tally_of s m).count)
count-put_tally spans spans t m = refl
count-put_tally spans data_points t m = refl
count-put_tally spans logs t m = refl
count-put_tally data_points spans t m = refl
count-put_tally data_points data_points t m = refl
count-put_tally data_points logs t m = refl
count-put_tally logs spans t m = refl
count-put_tally logs data_points t m = refl
count-put_tally logs logs t m = refl

same_signal : (s s' : Signal) → signal_eqb s s' ≡ true → s ≡ s'
same_signal spans spans h = refl
same_signal spans data_points h = ground (arith, h)
same_signal spans logs h = ground (arith, h)
same_signal data_points spans h = ground (arith, h)
same_signal data_points data_points h = refl
same_signal data_points logs h = ground (arith, h)
same_signal logs spans h = ground (arith, h)
same_signal logs data_points h = ground (arith, h)
same_signal logs logs h = refl

was-entry_or :
    (s : Signal) (o : Option MeterMetric) (attrs : List (Text × Text))
    → (tally_of s (entry_or o attrs)).count ≡ was s o
was-entry_or spans none attrs = refl
was-entry_or data_points none attrs = refl
was-entry_or logs none attrs = refl
was-entry_or s (some m) attrs = refl

held-update_meter_metrics :
    (map_hash : List (Text × Text) → ℕ) (s s' : Signal) (attrs : List (Text × Text))
    (count size : ℕ) (agm : MeterMetrics)
    → held s agm + gained s s' count < 2 ^ 63
    → held s (update_meter_metrics map_hash s' attrs count size agm)
      ≡ held s agm + gained s s' count
unfolding update_meter_metrics
held-update_meter_metrics map_hash s s' attrs count size agm h =
    let key = map_hash attrs in
    let m = entry_or (lookup key agm) attrs in
    let t = tally_of s' m in
    let t' : Tally = record { count = add_int t.count count; size = add_int t.size size } in
    let inserted = held-insert s key (put_tally s' t' m) agm in
    let put = count-put_tally s s' t' m in
    let entry = was-entry_or s (lookup key agm) attrs in
    let bound = was-le-held s key agm in
    elim (Bool-cases (signal_eqb s s')) [
      | inl same ↦
          let there : (tally_of s' m).count ≡ (tally_of s m).count =
            ap (λ z. (tally_of z m).count) (sym (same_signal s s' same)) in
          let put' : (tally_of s (put_tally s' t' m)).count ≡ t'.count = put ∙ rw same refl in
          let h' : held s agm + count < 2 ^ 63 = rw same at h in
          rw same (omega (arith, inserted, put', entry, bound, there, h'))
      | inr apart ↦
          let put' : (tally_of s (put_tally s' t' m)).count ≡ (tally_of s m).count =
            put ∙ rw apart refl in
          rw apart (omega (arith, inserted, put', entry, bound))
    ]

-- The loops over the resources.
module _ {V : Type 0} (x : Meters V) where
  pub held-aggregate :
      (s s' : Signal) (attrs : List (Text × V)) (count size : ℕ) (c : MeterConnector)
      → held s c.aggregated_meter_metrics + gained s s' count < 2 ^ 63
      → held s (aggregate x s' attrs count size c).aggregated_meter_metrics
        ≡ held s c.aggregated_meter_metrics + gained s s' count
  unfolding aggregate
  held-aggregate s s' attrs count size c h =
      held-update_meter_metrics x.map_hash s s' _ count size c.aggregated_meter_metrics h

  gained-add : (s s' : Signal) (a b : ℕ) → gained s s' (a + b) ≡ gained s s' a + gained s s' b
  gained-add s s' a b = ground arith

  -- A loop that aggregates each resource of one signal.
  abbrev pub IsLoop :
      {R : Type 0}
      → Signal
      → (R → List (Text × V))
      → (R → ℕ)
      → (R → ℕ)
      → (List R → MeterConnector → MeterConnector)
      → Type 0
  IsLoop s' attrs count size loop =
      ((c : MeterConnector) → loop [] c ≡ c)
      × ((r : _) (rs : List _) (c : MeterConnector)
          → loop (r ∷ rs) c ≡ loop rs (aggregate x s' (attrs r) (count r) (size r) c))

  pub held-loop :
      {R : Type 0} (s s' : Signal) (attrs : R → List (Text × V)) (count size : R → ℕ)
      (loop : List R → MeterConnector → MeterConnector)
      → IsLoop s' attrs count size loop
      → (rs : List R) (c : MeterConnector)
      → held s c.aggregated_meter_metrics + gained s s' (total count rs) < 2 ^ 63
      → held s (loop rs c).aggregated_meter_metrics
        ≡ held s c.aggregated_meter_metrics + gained s s' (total count rs)
  held-loop s s' attrs count size loop is [] c h = rw (is.0 c) (ground arith)
  held-loop s s' attrs count size loop is (r ∷ rs) c h =
      let c' = aggregate x s' (attrs r) (count r) (size r) c in
      let split = gained-add s s' (count r) (total count rs) in
      let first = held-aggregate s s' (attrs r) (count r) (size r) c (omega (arith, h, split)) in
      let rest = held-loop s s' attrs count size loop is rs c' (omega (arith, h, split, first)) in
      rw (is.1 r rs c) (omega (arith, first, rest, split))
