-- ===== src/TailSampler/Memo.antt =====
-- The matcher of a string filter with regular expressions, which remembers its verdicts in an LRU
-- cache (processor/signoztailsampler/internal/sampling/string_tag_filter.go, NewStringAttributeFilter
-- and addFilters). The regular expressions and the cache are libraries: they are parameters.
use Prim.Native.String.{String}
use mathlib.Core.Bool.{Bool, true, false}
use mathlib.Core.List.{List, [], ◌∷◌, map}
use mathlib.Core.Logic.{◌⊎◌, inl, inr}
use mathlib.Core.Option.{Option, none, some}
use mathlib.Core.Path.{◌≡◌, refl, sym, subst, ◌∙◌}
use native.Mathlib.Omega.{arith}
use text.Mathlib.TextEquality.{eq_iff}
use otel_collector.Common.Int.{ℤ, pos, int_leb}
use otel_collector.Common.Lists.{any}
use otel_collector.Common.Tests.{if◌then◌else◌, ◌==◌, comparable_string, Option-cases}

-- The operations of package regexp that the filter uses; a text that does not compile is `none`.
pub record Regexp : Type 1 where
  pub Expr : Type 0
  pub compile : String → Option Expr
  pub match_string : Expr → String → Bool

-- The operations of groupcache's lru. A stored value is returned until it is overwritten or
-- evicted, and nothing is returned that was not stored.
pub record LruCache : Type 1 where
  pub Cache : Type 0
  pub new : ℤ → Cache
  pub get : Cache → String → Option Bool × Cache
  pub add : Cache → String → Bool → Cache
  pub get-new : (size : ℤ) (k : String) → (get (new size) k).0 ≡ none
  pub get-get : (c : Cache) (k j : String) → (get (get c k).1 j).0 ≡ (get c j).0
  pub get-add :
      (c : Cache) (k j : String) (v : Bool)
      → ((get (add c k v) j).0 ≡ none)
        ⊎ ((get (add c k v) j).0 ≡ (if k == j then some v else (get c j).0))

unfoldable pub cache_size : ℤ → ℤ
cache_size evict_size = if int_leb evict_size (pos 0) then pos 128 else evict_size

module _ (regexp : Regexp) where
  open regexp use {Expr, compile, match_string}

  -- `none` is the panic of `regexp.MustCompile`.
  unfoldable pub add_filters : List String → Option (List Expr)
  add_filters [] = some []
  add_filters (entry ∷ exprs) = elim (compile entry) [
    | none ↦ none
    | some rule ↦ elim (add_filters exprs) [ none ↦ none | some list ↦ some (rule ∷ list) ]
  ]

  -- Whether one of the rules matches.
  abbrev pub matches : List Expr → String → Bool
  matches rules t = any (λ r. match_string r t) rules

module _ (regexp : Regexp) (lru : LruCache) where
  open regexp use {Expr, match_string}
  open lru use {Cache, get, add, get-new, get-get, get-add}

  pub record RegexStrSetting : Type 0 where
    pub matched_attrs : Cache
    pub filter_list : List Expr

  -- The set-up of `NewStringAttributeFilter` when regular expressions are enabled.
  unfoldable pub new_regex_setting : List String → ℤ → Option RegexStrSetting
  unfolding cache_size add_filters
  new_regex_setting values evict_size = elim (add_filters regexp values) [
    | none ↦ none
    | some list ↦
        some (record { matched_attrs = lru.new (cache_size evict_size); filter_list = list })
  ]

  -- The loop over the rules, which remembers the first match, and in the end that there is none.
  unfoldable pub match_rules : Cache → List Expr → String → Bool × Cache
  match_rules c [] to_match = (false, add c to_match false)
  match_rules c (r ∷ rs) to_match =
      if match_string r to_match then (true, add c to_match true) else match_rules c rs to_match

  unfoldable pub regex_matcher : RegexStrSetting → String → Bool × RegexStrSetting
  unfolding match_rules
  regex_matcher s to_match =
      let (v, c) = get s.matched_attrs to_match in
      elim v [
        | some known ↦ (known, record s { matched_attrs = c })
        | none ↦
            let (matched, c') = match_rules c s.filter_list to_match in
            (matched, record s { matched_attrs = c' })
      ]

  -- A run of the matcher over the texts that are looked up, one after another.
  unfoldable pub match_all : RegexStrSetting → List String → List Bool
  match_all s [] = []
  match_all s (t ∷ ts) = let (v, s') = regex_matcher s t in v ∷ match_all s' ts

  -- What is remembered is what the rules say.
  abbrev IsCoherent : List Expr → Cache → Type 0
  IsCoherent rules c = (t : String) (v : Bool) → (get c t).0 ≡ some v → v ≡ matches regexp rules t

  IsCoherent-get :
      (rules : List Expr) (c : Cache) (k : String)
      → IsCoherent rules c
      → IsCoherent rules (get c k).1
  IsCoherent-get rules c k h t v e = h t v (cc (get-get c k t))

  IsCoherent-add :
      (rules : List Expr) (c : Cache) (k : String) (w : Bool)
      → w ≡ matches regexp rules k
      → IsCoherent rules c
      → IsCoherent rules (add c k w)
  IsCoherent-add rules c k w hw h t v e = ground (arith, get-add c k t w, eq_iff k t, h t v)

  match_rules_lem :
      (c : Cache) (rs : List Expr) (t : String)
      → match_rules c rs t ≡ (matches regexp rs t, add c t (matches regexp rs t))
  unfolding match_rules
  match_rules_lem c [] t = refl
  match_rules_lem c (r ∷ rs) t = ground (arith, match_rules_lem c rs t)

  regex_matcher-matches :
      (s : RegexStrSetting) (t : String)
      → IsCoherent s.filter_list s.matched_attrs
      → ((regex_matcher s t).0 ≡ matches regexp s.filter_list t)
        × IsCoherent s.filter_list (regex_matcher s t).1.matched_attrs
        × ((regex_matcher s t).1.filter_list ≡ s.filter_list)
  unfolding regex_matcher
  regex_matcher-matches s t h = elim (Option-cases (get s.matched_attrs t).0) [
    | inl e ↦
        let got = IsCoherent-get s.filter_list s.matched_attrs t h in
        rw (e, regex_matcher)
          (rw match_rules_lem (
            refl,
            IsCoherent-add s.filter_list (get s.matched_attrs t).1 t
                (matches regexp s.filter_list t) refl got,
            refl,
          ))
    | inr (v, e) ↦
        rw (e, regex_matcher) (h t v e, IsCoherent-get s.filter_list s.matched_attrs t h, refl)
  ]

  match_all_lem :
      (rules : List Expr) (ts : List String) (s : RegexStrSetting)
      → s.filter_list ≡ rules
      → IsCoherent rules s.matched_attrs
      → match_all s ts ≡ map (matches regexp rules) ts
  unfolding match_all
  match_all_lem rules [] s e h = refl
  match_all_lem rules (t ∷ ts) s e h =
      let (verdict, h', e') =
        regex_matcher-matches s t (subst (λ r. IsCoherent r s.matched_attrs) (sym e) h) in
      let c' : IsCoherent rules (regex_matcher s t).1.matched_attrs =
        subst (λ r. IsCoherent r (regex_matcher s t).1.matched_attrs) e h' in
      cc (verdict, e, match_all_lem rules ts (regex_matcher s t).1 (e' ∙ e) c')

  -- The cache of a regular-expression filter changes no verdict: over any run of texts, whatever is
  -- evicted when, the matcher answers for each whether one of the filter's rules matches it.
  pub match_all-matches :
      (values : List String) (evict_size : ℤ) {s : RegexStrSetting}
      → new_regex_setting values evict_size ≡ some s
      → (ts : List String) → match_all s ts ≡ map (matches regexp s.filter_list) ts
  unfolding new_regex_setting
  match_all-matches values evict_size {s} made ts =
      match_all_lem s.filter_list ts s refl (coherent made)
    where
      coherent :
          new_regex_setting values evict_size ≡ some s → IsCoherent s.filter_list s.matched_attrs
      coherent m t v e = ground (arith, m, e, get-new (cache_size evict_size) t)
