-- ===== src/Stanza/Cache/Parse.antt =====
-- The parser with its cache against the parser without one
-- (processor/signozlogspipelineprocessor/stanza/operator/operators/regex/parser.go), over values that
-- come in turn with the ticks of the limiter.
use Prim.Native.Nat.{ℕ, ◌≤◌, ◌<◌}
use Prim.Native.String.{String}
use mathlib.Core.List.{List, [], ◌∷◌}
use mathlib.Core.Logic.{inl, inr}
use mathlib.Core.Option.{Option, none, some}
use mathlib.Core.Path.{◌≡◌, refl, ◌∙◌}
use native.Mathlib.Omega.{arith}
use text.Mathlib.TextEquality.{eq_iff}
use otel_collector.Common.Dict.{lookup}
use otel_collector.Common.Int.{ℤ}
use otel_collector.Common.Lists.{length}
use otel_collector.Common.Tests.{Option-cases, comparable_string}
use otel_collector.Stanza.Cache.{
  reset_tick, MemoryCache, new_memory_cache, cached, Parsed, parsed, no_match, not_text,
  match_fresh, match_text, parse, built_cache,
}
use otel_collector.Stanza.Cache.Laws.{
  IsValid, Added, add-Added, new_memory_cache-IsValid, length-le-keys,
}
use otel_collector.Stanza.Value.{Value, nil, nil_map, string, bytes, other, map_of}

-- What happens to a parser: a value comes in, or its limiter ticks.
pub data Event : Type 0 where
  parse_value : Value → Event
  tick : Event

module _ {ℓ} {V : Type ℓ} (match_values : String → Option V) (to_uint64 : ℤ → ℕ) where
  tick_cache : Option (MemoryCache V) → Option (MemoryCache V)
  tick_cache none = none
  tick_cache (some m) = some (record m { limiter = reset_tick to_uint64 m.limiter })

  abbrev noted :
      Parsed V
      → Option (List (Parsed V) × Option (MemoryCache V))
      → Option (List (Parsed V) × Option (MemoryCache V))
  noted r none = none
  noted r (some (rs, c)) = some (r ∷ rs, c)

  -- The results in turn, and the cache at the end.
  unfoldable pub run :
      List Event → Option (MemoryCache V) → Option (List (Parsed V) × Option (MemoryCache V))
  unfolding tick_cache
  run [] c = some ([], c)
  run (tick ∷ events) c = run events (tick_cache c)
  run (parse_value v ∷ events) c = elim (parse match_values v c) [
    | none ↦ none
    | some (r, c') ↦ noted r (run events c')
  ]

-- What a value parses to with no cache at all.
abbrev pub plain {ℓ} : {V : Type ℓ} → (String → Option V) → Value → Parsed V
plain match_values (string raw) = elim (match_values raw) [ none ↦ no_match | some v ↦ parsed v ]
plain match_values _ = not_text

abbrev pub plain_run {ℓ} : {V : Type ℓ} → (String → Option V) → List Event → List (Parsed V)
plain_run match_values [] = []
plain_run match_values (tick ∷ events) = plain_run match_values events
plain_run match_values (parse_value v ∷ events) =
    plain match_values v ∷ plain_run match_values events

-- A cache of that capacity that holds only what the expression gives.
pub record IsFaithful {ℓ} {V : Type ℓ} (match_values : String → Option V) (size : ℕ)
    (m : MemoryCache V) : Type ℓ where
  pub valid : IsValid m
  pub capacity : m.capacity ≡ size
  pub same : (key : String) (v : V) → cached m key ≡ some v → match_values key ≡ some v

module _ {ℓ} {V : Type ℓ} (match_values : String → Option V) (size : ℕ) where
  Added-IsFaithful :
      (key : String) (value : V) (m m' : MemoryCache V)
      → match_values key ≡ some value
      → IsFaithful match_values size m
      → Added key value m m'
      → IsFaithful match_values size m'
  Added-IsFaithful key value m m' e f added = record {
    valid = added.valid;
    capacity = added.capacity ∙ f.capacity;
    same = λ k v got. ground (arith, got, added.reads k, f.same k v, e, eq_iff key k);
  }

  -- A match with a faithful cache is the plain match, and leaves a faithful cache.
  match_text-IsFaithful :
      (value : String) (m : MemoryCache V)
      → 0 < size
      → IsFaithful match_values size m
      → (m' : MemoryCache V) × (match_text match_values value (some m)
          ≡ some (plain match_values (string value), some m'))
        × IsFaithful match_values size m'
  unfolding match_text match_fresh
  match_text-IsFaithful value m positive f = elim (Option-cases (lookup value m.cache)) [
    | inr (x, hit) ↦
        let found : match_values value ≡ some x = f.same value x (unfold cached in hit) in
        (m, ground (arith, hit, found), f)
    | inl miss ↦ elim (Option-cases (match_values value)) [
      | inl refused ↦ (m, ground (arith, miss, refused), f)
      | inr (v, found) ↦
          let room : 0 < m.capacity = ground (arith, positive, f.capacity) in
          elim (add-Added value v m f.valid room) [
            | inl (asleep, left) ↦ (m, ground (arith, miss, found, left), f)
            | inr (m', awake, added) ↦ (
              m',
              ground (arith, miss, found, added.result),
              Added-IsFaithful value v m m' found f added,
            )
          ]
    ]
  ]

  parse-IsFaithful :
      (value : Value) (m : MemoryCache V)
      → 0 < size
      → IsFaithful match_values size m
      → (m' : MemoryCache V) × (parse match_values value (some m)
          ≡ some (plain match_values value, some m'))
        × IsFaithful match_values size m'
  unfolding parse
  parse-IsFaithful (string raw) m positive f = match_text-IsFaithful raw m positive f
  parse-IsFaithful nil m positive f = (m, refl, f)
  parse-IsFaithful nil_map m positive f = (m, refl, f)
  parse-IsFaithful (bytes s) m positive f = (m, refl, f)
  parse-IsFaithful (other n) m positive f = (m, refl, f)
  parse-IsFaithful (map_of n) m positive f = (m, refl, f)

  tick-IsFaithful :
      (to_uint64 : ℤ → ℕ) (m : MemoryCache V)
      → IsFaithful match_values size m
      → IsFaithful match_values size (record m { limiter = reset_tick to_uint64 m.limiter })
  unfolding cached
  tick-IsFaithful to_uint64 m f = record {
    valid = record { room = f.valid.room; distinct = f.valid.distinct; waits = f.valid.waits };
    capacity = f.capacity;
    same = f.same;
  }

  run-IsFaithful :
      (to_uint64 : ℤ → ℕ) (events : List Event) (m : MemoryCache V)
      → 0 < size
      → IsFaithful match_values size m
      → (m' : MemoryCache V) × (run match_values to_uint64 events (some m)
          ≡ some (plain_run match_values events, some m'))
        × IsFaithful match_values size m'
  unfolding run
  run-IsFaithful to_uint64 [] m positive f = (m, refl, f)
  run-IsFaithful to_uint64 (tick ∷ events) m positive f =
      run-IsFaithful to_uint64 events (record m { limiter = reset_tick to_uint64 m.limiter })
        positive (tick-IsFaithful to_uint64 m f)
  run-IsFaithful to_uint64 (parse_value v ∷ events) m positive f =
      let (m₁, now, f₁) = parse-IsFaithful v m positive f in
      let (m₂, later, f₂) = run-IsFaithful to_uint64 events m₁ positive f₁ in
      (m₂, ground (arith, now, later), f₂)

  new-IsFaithful : IsFaithful match_values size (new_memory_cache size 0)
  unfolding new_memory_cache cached lookup
  new-IsFaithful = record {
    valid = new_memory_cache-IsValid size 0;
    capacity = refl;
    same = λ key v got. absurd (ground (arith, got));
  }

-- Over any run of values and ticks, and for any size but 0, the parser with a cache does not block,
-- gives each value what it gives without a cache, throttled or not, and holds at most as many matches
-- as its size.
pub run-plain_run {ℓ} :
    {V : Type ℓ} (match_values : String → Option V) (to_uint64 : ℤ → ℕ) (events : List Event)
    (size : ℕ)
    → 0 < size
    → (m : MemoryCache V) × (run match_values to_uint64 events (built_cache size)
        ≡ some (plain_run match_values events, some m))
      × (length m.cache ≤ size)
unfolding built_cache
run-plain_run match_values to_uint64 events size positive =
    let (m, result, f) =
      run-IsFaithful match_values size to_uint64 events (new_memory_cache size 0) positive
        (new-IsFaithful match_values size) in
    (
      m,
      ground (arith, positive, result),
      omega (
        arith,
        length-le-keys m.keys m.cache f.valid.distinct f.valid.waits,
        f.valid.room,
        f.capacity,
      ),
    )
