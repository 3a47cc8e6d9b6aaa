-- ===== src/Metrics/Write/Series.antt =====
-- Which series a push sends, and what the cache holds after it
-- (exporter/signozclickhousemetrics/exporter.go: writeBatch).
use Prim.Native.Nat.{◌^◌, ◌<◌}
use mathlib.Core.Bool.{true, false, true≢false}
use mathlib.Core.List.{List, [], ◌∷◌}
use mathlib.Core.Logic.{◌⊎◌, inl, inr}
use mathlib.Core.Option.{none, some}
use mathlib.Core.Path.{◌≡◌, refl, sym, ap, subst, ◌∙◌}
use otel_collector.Common.Int.{bits64, from_bits64}
use otel_collector.Common.Lists.{All, All-map, Any}
use otel_collector.Common.Tests.{Bool-cases}
use otel_collector.Common.Texts.{Text}
use otel_collector.Metrics.{Platform}
use otel_collector.Metrics.Batch.{Ts}
use otel_collector.Metrics.Write.{
  make_cache_key, rounded, TsRow, ts_row, Connection, SeriesCache, send_rows, cache_key,
  append_series, write_time_series,
}
use otel_collector.Metrics.Write.Key.{make_cache_key-injective}

-- What the exporter relies on: a key that was set is held, and so is every key held before, and
-- nothing else is. No item expires during the push.
pub record IsCache {C : Type 0} (cache : SeriesCache C) : Type 0 where
  pub held : (k : Text) (c : C) → cache.get k (cache.set k c) ≡ true
  pub kept : (j k : Text) (c : C) → cache.get j c ≡ true → cache.get j (cache.set k c) ≡ true
  pub no_other :
      (j k : Text) (c : C) → cache.get j (cache.set k c) ≡ true → (j ≡ k) ⊎ (cache.get j c ≡ true)

-- A connection that prepares and appends without an error.
pub record Appends {Row Err : Type 0} (conn : Connection Row Err) : Type 0 where
  pub prepares : conn.prepare ≡ none
  pub appends : (r : Row) → conn.append r ≡ none

-- The fingerprint and the hour of a row are those of a series.
abbrev pub IsRowOf : Ts → TsRow → Type 0
IsRowOf t r = (r.fingerprint ≡ t.fingerprint) × (r.unix_milli ≡ rounded t.unix_milli)

-- A fingerprint and an hour that fit into 64 bits: the hour is an int64.
abbrev pub IsWord : Ts → Type 0
IsWord t =
    (t.fingerprint < 2 ^ 64)
    × (bits64 (rounded t.unix_milli) < 2 ^ 64)
    × (from_bits64 (bits64 (rounded t.unix_milli)) ≡ rounded t.unix_milli)

abbrev row_key : TsRow → Text
row_key r = make_cache_key r.fingerprint (bits64 r.unix_milli)

-- No two rows have both the fingerprint and the hour in common.
abbrev pub AreDistinct : List TsRow → Type 0
AreDistinct [] = Unit
AreDistinct (r ∷ rows) =
    All (λ s. ¬ ((s.fingerprint ≡ r.fingerprint) × (s.unix_milli ≡ r.unix_milli))) rows
    × AreDistinct rows

module _ {C : Type 0} (cache : SeriesCache C) where
  abbrev pub IsHeld : C → Ts → Type 0
  IsHeld c t = cache.get (cache_key t) c ≡ true

  -- Each series was held, or is among the rows.
  abbrev pub AreSeen : C → List Ts → List TsRow → Type 0
  AreSeen c ts rows = All (λ t. IsHeld c t ⊎ Any (IsRowOf t) rows) ts

  -- No row was held.
  abbrev pub AreNew : C → List TsRow → Type 0
  AreNew c rows = All (λ r. cache.get (row_key r) c ≡ false) rows

module _ {V F C Err : Type 0} (p : Platform V F) (cache : SeriesCache C) (laws : IsCache cache)
    (conn : Connection TsRow Err) (ok : Appends conn) where
  Appended-cases :
      (t : Ts) (ts : List Ts) (c : C)
      → ((cache.get (cache_key t) c ≡ true)
          × (append_series p cache conn (t ∷ ts) c ≡ append_series p cache conn ts c))
        ⊎ ((cache.get (cache_key t) c ≡ false)
            × (let after = append_series p cache conn ts (cache.set (cache_key t) c) in
                append_series p cache conn (t ∷ ts) c
                ≡ record after { rows = ts_row p t ∷ after.rows }))
  unfolding append_series
  Appended-cases t ts c = elim (Bool-cases (cache.get (cache_key t) c)) [
    | inl hit ↦ inl (hit, rw (append_series, hit) refl)
    | inr miss ↦ inr (miss, rw (append_series, miss, ok.appends (ts_row p t)) refl)
  ]

  append_series-error : (ts : List Ts) (c : C) → (append_series p cache conn ts c).error ≡ none
  unfolding append_series
  append_series-error [] c = refl
  append_series-error (t ∷ ts) c = elim (Appended-cases t ts c) [
    | inl (hit, e) ↦ rw (e, append_series-error ts c) refl
    | inr (miss, e) ↦ rw (e, append_series-error ts (cache.set (cache_key t) c)) refl
  ]

  -- What the cache held it still holds.
  append_series-keeps :
      (ts : List Ts) (c : C) (k : Text)
      → cache.get k c ≡ true
      → cache.get k (append_series p cache conn ts c).cached ≡ true
  unfolding append_series
  append_series-keeps [] c k h = h
  append_series-keeps (t ∷ ts) c k h = elim (Appended-cases t ts c) [
    | inl (hit, e) ↦ rw e (append_series-keeps ts c k h)
    | inr (miss, e) ↦
        rw e (append_series-keeps ts (cache.set (cache_key t) c) k (laws.kept k (cache_key t) c h))
  ]

  append_series-holds :
      (ts : List Ts) (c : C) → All (IsHeld cache (append_series p cache conn ts c).cached) ts
  unfolding append_series
  append_series-holds [] c = tt
  append_series-holds (t ∷ ts) c = elim (Appended-cases t ts c) [
    | inl (hit, e) ↦
        subst (λ a. All (IsHeld cache a.cached) (t ∷ ts)) (sym e)
          (append_series-keeps ts c (cache_key t) hit, append_series-holds ts c)
    | inr (miss, e) ↦
        let c' = cache.set (cache_key t) c in
        subst (λ a. All (IsHeld cache a.cached) (t ∷ ts)) (sym e)
          (
            append_series-keeps ts c' (cache_key t) (laws.held (cache_key t) c),
            append_series-holds ts c',
          )
  ]

  same_row : (s t : Ts) → IsWord s → IsWord t → cache_key t ≡ cache_key s → IsRowOf t (ts_row p s)
  unfolding cache_key
  same_row s t hs ht e =
      let (f, m) =
        make_cache_key-injective t.fingerprint (bits64 (rounded t.unix_milli)) s.fingerprint
          (bits64 (rounded s.unix_milli)) ht.0 ht.1 hs.0 hs.1 e in
      (sym f, sym hs.2 ∙ ap from_bits64 (sym m) ∙ ht.2)

  seen_after :
      (t : Ts) (c : C) (ts : List Ts) (rows : List TsRow)
      → IsWord t
      → All IsWord ts
      → AreSeen cache (cache.set (cache_key t) c) ts rows
      → AreSeen cache c ts (ts_row p t ∷ rows)
  seen_after t c [] rows ht hts h = tt
  seen_after t c (s ∷ ts) rows ht hts (inr row, h) =
      (inr (inr row), seen_after t c ts rows ht hts.1 h)
  seen_after t c (s ∷ ts) rows ht hts (inl hit, h) =
      elim (laws.no_other (cache_key s) (cache_key t) c hit) [
        | inl same ↦ (inr (inl (same_row t s ht hts.0 same)), seen_after t c ts rows ht hts.1 h)
        | inr before ↦ (inl before, seen_after t c ts rows ht hts.1 h)
      ]

  append_series-AreSeen :
      (ts : List Ts) (c : C)
      → All IsWord ts
      → AreSeen cache c ts (append_series p cache conn ts c).rows
  unfolding append_series
  append_series-AreSeen [] c h = tt
  append_series-AreSeen (t ∷ ts) c h = elim (Appended-cases t ts c) [
    | inl (hit, e) ↦
        subst (λ a. AreSeen cache c (t ∷ ts) a.rows) (sym e)
          (inl hit, append_series-AreSeen ts c h.1)
    | inr (miss, e) ↦
        subst (λ a. AreSeen cache c (t ∷ ts) a.rows) (sym e)
          (
            inr (inl (refl, refl)),
            seen_after t c ts _ h.0 h.1 (append_series-AreSeen ts (cache.set (cache_key t) c) h.1),
          )
  ]

  -- What is new to a cache that holds more was new before.
  new_before :
      (k : Text) (c : C) (r : TsRow)
      → cache.get (row_key r) (cache.set k c) ≡ false
      → cache.get (row_key r) c ≡ false
  new_before k c r h = elim (Bool-cases (cache.get (row_key r) c)) [
    | inl held ↦ absurd (true≢false (sym (laws.kept (row_key r) k c held) ∙ h))
    | inr new ↦ new
  ]

  new_apart :
      (t : Ts) (c : C) (r : TsRow)
      → cache.get (row_key r) (cache.set (cache_key t) c) ≡ false
      → ¬ ((r.fingerprint ≡ (ts_row p t).fingerprint) × (r.unix_milli ≡ (ts_row p t).unix_milli))
  unfolding cache_key
  new_apart t c r h (f, m) =
      let same : row_key r ≡ cache_key t = rw (f, m) refl in
      true≢false (sym (rw same (laws.held (cache_key t) c)) ∙ h)

  append_series-AreNew :
      (ts : List Ts) (c : C)
      → AreNew cache c (append_series p cache conn ts c).rows
        × AreDistinct (append_series p cache conn ts c).rows
  unfolding append_series
  append_series-AreNew [] c = (tt, tt)
  append_series-AreNew (t ∷ ts) c = elim (Appended-cases t ts c) [
    | inl (hit, e) ↦
        subst (λ a. AreNew cache c a.rows × AreDistinct a.rows) (sym e) (append_series-AreNew ts c)
    | inr (miss, e) ↦
        let k = cache_key t in
        let (new, distinct) = append_series-AreNew ts (cache.set k c) in
        subst (λ a. AreNew cache c a.rows × AreDistinct a.rows) (sym e)
          (
            (unfold cache_key in miss, All-map _ _ _ (new_before k c) new),
            (All-map _ _ _ (new_apart t c) new, distinct),
          )
  ]

  write_time_series-prepared :
      (t : Ts) (ts : List Ts) (c : C)
      → let a = append_series p cache conn (t ∷ ts) c in
        write_time_series p cache conn (t ∷ ts) c ≡ (send_rows conn none a.rows, a.cached)
  unfolding write_time_series
  write_time_series-prepared t ts c =
      rw (write_time_series, ok.prepares, append_series-error (t ∷ ts) c) refl

  write_time_series-sends :
      (ts : List Ts) (c : C)
      → conn.send ≡ none
      → let a = append_series p cache conn ts c in
        write_time_series p cache conn ts c ≡ (record { sent = a.rows; error = none }, a.cached)
  unfolding write_time_series append_series
  write_time_series-sends [] c sends = refl
  write_time_series-sends (t ∷ ts) c sends =
      write_time_series-prepared t ts c
      ∙ ap (λ w. (w, (append_series p cache conn (t ∷ ts) c).cached)) (rw sends refl)

  -- If the connection gives no error, each series of a push is in the cache before it or has a row
  -- with its fingerprint and hour among those sent; no row that is sent was in the cache, no two
  -- have the fingerprint and the hour in common, and afterwards the cache holds every series.
  -- Fingerprints are uint64 and hours are int64, and the cache holds what was set and before, and
  -- nothing else.
  pub write_time_series-once :
      (ts : List Ts) (c : C)
      → conn.send ≡ none
      → All IsWord ts
      → let w = write_time_series p cache conn ts c in
        AreSeen cache c ts w.0.sent
        × AreNew cache c w.0.sent
        × AreDistinct w.0.sent
        × All (IsHeld cache w.1) ts
  write_time_series-once ts c sends h =
      subst
        (λ w.
          AreSeen cache c ts w.0.sent
          × AreNew cache c w.0.sent
          × AreDistinct w.0.sent
          × All (IsHeld cache w.1) ts)
        (sym (write_time_series-sends ts c sends))
        (
          append_series-AreSeen ts c h,
          (append_series-AreNew ts c).0,
          (append_series-AreNew ts c).1,
          append_series-holds ts c,
        )

  -- Series that are all held are left out.
  append_series-held :
      (ts : List Ts) (c : C)
      → All (IsHeld cache c) ts
      → append_series p cache conn ts c ≡ record { rows = []; cached = c; error = none }
  unfolding append_series
  append_series-held [] c h = refl
  append_series-held (t ∷ ts) c h = rw (append_series, h.0) (append_series-held ts c h.1)

module _ {V F C Err : Type 0} (p : Platform V F) (cache : SeriesCache C) (laws : IsCache cache)
    (failing : Connection TsRow Err) (appends : Appends failing) (err : Err)
    (fails : failing.send ≡ some err) (conn : Connection TsRow Err) (ok : Appends conn)
    (sends : conn.send ≡ none) where
  -- If only sending the series fails, nothing is sent and the error is returned, and a retry of the
  -- same series without an error sends nothing either and reports none: the cache holds them
  -- already, if it holds what was set and before, and nothing else.
  pub write_time_series-retried :
      (t : Ts) (ts : List Ts) (c : C)
      → let first = write_time_series p cache failing (t ∷ ts) c in
        let retried = write_time_series p cache conn (t ∷ ts) first.1 in
        (first.0 ≡ record { sent = []; error = some err })
        × (retried.0 ≡ record { sent = []; error = none })
  write_time_series-retried t ts c =
      let first = write_time_series-prepared p cache laws failing appends t ts c in
      let held = append_series-holds p cache laws failing appends (t ∷ ts) c in
      let c' = (append_series p cache failing (t ∷ ts) c).cached in
      (
        ap (λ w. w.0) first ∙ rw fails refl,
        ap (λ w. (write_time_series p cache conn (t ∷ ts) w.1).0) first
            ∙ ap (λ w. w.0) (write_time_series-sends p cache laws conn ok (t ∷ ts) c' sends)
            ∙ rw (append_series-held p cache laws conn ok (t ∷ ts) c' held) refl,
      )
