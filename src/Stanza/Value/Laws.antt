-- ===== src/Stanza/Value/Laws.antt =====
-- Reading the maps of an entry after a write.
use Prim.Native.String.{String}
use mathlib.Core.Option.{none, some}
use mathlib.Core.Path.{◌≡◌, refl}
use native.Mathlib.Omega.{arith}
use otel_collector.Common.Tests.{if◌then◌else◌, ◌==◌, comparable_string}
use otel_collector.Stanza.Value.{Value, Fields, empty, entry, get, put, delete}
use text.Mathlib.TextEquality.{eq_iff}

pub get-put :
    (m : Fields) (key read : String) (value : Value)
    → get read (put key value m) ≡ (if key == read then some value else get read m)
unfolding put get
get-put empty key read value = refl
get-put (entry here old rest) key read value =
    ground (arith, get-put rest key read value, eq_iff here read, eq_iff here key, eq_iff key read)

pub get-delete :
    (m : Fields) (key read : String)
    → get read (delete key m) ≡ (if key == read then none else get read m)
unfolding delete get
get-delete empty key read = ground arith
get-delete (entry here old rest) key read =
    ground (arith, get-delete rest key read, eq_iff here read, eq_iff here key, eq_iff key read)
