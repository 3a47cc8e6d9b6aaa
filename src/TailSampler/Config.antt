-- ===== src/TailSampler/Config.antt =====
-- The configuration of the tail sampler (processor/signoztailsampler/config.go).
use Prim.Native.Nat.{ℕ}
use Prim.Native.String.{String}
use mathlib.Core.Bool.{Bool}
use mathlib.Core.List.{List, [], ◌∷◌}
use otel_collector.Common.Int.{ℤ, pos, int_eqb}
use otel_collector.Common.Tests.{if◌then◌else◌}
use otel_collector.TailSampler.Filters.{NumericAttributeFilter, Percentage}

-- `NumericAttributeCfg` has the fields of the filter that it makes.
abbrev pub NumericAttributeCfg : Type 0
NumericAttributeCfg = NumericAttributeFilter

pub record StringAttributeCfg : Type 0 where
  pub key : String
  pub values : List String
  pub enabled_regex_matching : Bool
  pub cache_max_size : ℤ
  pub invert_match : Bool

pub record PolicyFilterCfg : Type 0 where
  pub filter_op : String
  pub string_attribute_cfgs : List StringAttributeCfg
  pub numeric_attribute_cfgs : List NumericAttributeCfg

pub record BasePolicy : Type 0 where
  pub name : String
  pub priority : ℤ
  pub sampling_percentage : Percentage
  pub policy_filter_cfg : PolicyFilterCfg

pub record PolicyGroupCfg : Type 0 where
  pub base_policy : BasePolicy
  pub sub_policies : List BasePolicy

-- Durations are whole seconds here: the processor reads `DecisionWait` only so, and the other
-- fields as they are.
pub record Config : Type 0 where
  pub decision_wait : ℕ
  pub num_traces : ℕ
  pub expected_new_traces_per_sec : ℕ
  pub policy_cfgs : List PolicyGroupCfg

-- The names of the policies whose priority is missing: one error for each.
unfoldable pub validate_policies : List PolicyGroupCfg → List String
validate_policies [] = []
validate_policies (p ∷ ps) =
    let rest = validate_policies ps in
    if int_eqb p.base_policy.priority (pos 0) then p.base_policy.name ∷ rest else rest

unfoldable pub validate : Config → List String
unfolding validate_policies
validate c = validate_policies c.policy_cfgs
