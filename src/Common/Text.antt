-- ===== src/Common/Text.antt =====
-- `strings.TrimPrefix` of Go, on native texts.
use Prim.Native.Char.{code}
use Prim.Native.String.{String}
use cluster_api_control_plan.Common.Tests.{◌==◌, if◌then◌else◌}
use mathlib.Core.Option.{Option, none, some}

-- The text behind a prefix, if it has that prefix.
strip_prefix : String → String → Option String
strip_prefix s String.[] = some s
strip_prefix String.[] (String.◌∷◌ d prefix) = none
strip_prefix (String.◌∷◌ c s) (String.◌∷◌ d prefix) =
    if code c == code d then strip_prefix s prefix else none

unfoldable pub trim_prefix : String → String → String
unfolding strip_prefix
trim_prefix s prefix = elim (strip_prefix s prefix) [ none ↦ s | some rest ↦ rest ]
