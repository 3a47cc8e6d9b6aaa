-- ===== src/Metrics/Labels/Read.antt =====
-- A reader of JSON objects with texts for values, one byte at a time, for what
-- internal/common/fingerprint/label.go prints. As in JSON, a control byte below 32 does not stand in a
-- text, and a backslash starts one of the escapes of one letter; it reads no \u escapes, no escapes
-- in names and no white space between parts. Bytes from 128 on are taken as they are.
use Prim.Native.Nat.{ℕ}
use mathlib.Core.Bool.{◌||◌}
use mathlib.Core.List.{[], ◌∷◌, ◌++◌}
use mathlib.Core.Option.{Option, none, some}
use otel_collector.Common.Tests.{if◌then◌else◌, nat_eqb, ltb}
use otel_collector.Common.Texts.{Text}
use otel_collector.Metrics.Labels.{Labels}

pub data Phase : Type 0 where
  opening first_name before_name in_name after_name before_value in_value in_escape : Phase
  after_value closed broken : Phase

pub record Reader : Type 0 where
  pub phase : Phase
  pub name : Text
  pub value : Text
  pub pairs : Labels

-- What an escape stands for.
abbrev pub unescape : ℕ → Option ℕ
unescape c =
    if nat_eqb c b'"'
    then some b'"'
    else if nat_eqb c b'\\'
    then some b'\\'
    else if nat_eqb c b'/'
    then some b'/'
    else if nat_eqb c b'b'
    then some 8
    else if nat_eqb c b'f'
    then some 12
    else if nat_eqb c b'n'
    then some 10
    else if nat_eqb c b'r'
    then some 13
    else if nat_eqb c b't'
    then some 9
    else none

-- The phase that a byte leads to if it is the one that is wanted.
abbrev pub wanted : ℕ → ℕ → Phase → Phase
wanted c d next = if nat_eqb c d then next else broken

unfoldable pub read_byte : ℕ → Phase → Text → Text → Labels → Reader
read_byte c opening n v ps = record {
  phase = wanted c b'{' first_name;
  name = n;
  value = v;
  pairs = ps;
}
read_byte c first_name n v ps =
    if nat_eqb c b'}'
    then record { phase = closed; name = n; value = v; pairs = ps }
    else record { phase = wanted c b'"' in_name; name = []; value = v; pairs = ps }
read_byte c before_name n v ps = record {
  phase = wanted c b'"' in_name;
  name = [];
  value = v;
  pairs = ps;
}
read_byte c in_name n v ps =
    if nat_eqb c b'"'
    then record { phase = after_name; name = n; value = v; pairs = ps }
    else if nat_eqb c b'\\' || ltb c 32
    then record { phase = broken; name = n; value = v; pairs = ps }
    else record { phase = in_name; name = n ++ c ∷ []; value = v; pairs = ps }
read_byte c after_name n v ps = record {
  phase = wanted c b':' before_value;
  name = n;
  value = v;
  pairs = ps;
}
read_byte c before_value n v ps = record {
  phase = wanted c b'"' in_value;
  name = n;
  value = [];
  pairs = ps;
}
read_byte c in_value n v ps =
    if nat_eqb c b'"'
    then record { phase = after_value; name = n; value = v; pairs = ps ++ (n, v) ∷ [] }
    else if nat_eqb c b'\\'
    then record { phase = in_escape; name = n; value = v; pairs = ps }
    else if ltb c 32
    then record { phase = broken; name = n; value = v; pairs = ps }
    else record { phase = in_value; name = n; value = v ++ c ∷ []; pairs = ps }
read_byte c in_escape n v ps = elim (unescape c) [
  | none ↦ record { phase = broken; name = n; value = v; pairs = ps }
  | some b ↦ record { phase = in_value; name = n; value = v ++ b ∷ []; pairs = ps }
]
read_byte c after_value n v ps =
    if nat_eqb c b'}'
    then record { phase = closed; name = n; value = v; pairs = ps }
    else record { phase = wanted c b',' before_name; name = n; value = v; pairs = ps }
read_byte c closed n v ps = record { phase = broken; name = n; value = v; pairs = ps }
read_byte c broken n v ps = record { phase = broken; name = n; value = v; pairs = ps }

unfoldable pub read_bytes : Text → Reader → Reader
unfolding read_byte
read_bytes [] r = r
read_bytes (c ∷ s) r = read_bytes s (read_byte c r.phase r.name r.value r.pairs)

abbrev pub result : Phase → Labels → Option Labels
result closed pairs = some pairs
result _ pairs = none

-- The pairs of an object, if it is one.
unfoldable pub read_labels : Text → Option Labels
unfolding read_bytes
read_labels s =
    let r = read_bytes s (record { phase = opening; name = []; value = []; pairs = [] }) in
    result r.phase r.pairs
