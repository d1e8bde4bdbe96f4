-- ===== src/Prelude/Texts.antt =====
-- Python's operations on texts.
use Prim.Native.Nat.{ℕ}
use Prim.Native.String.{String, ◌++◌, len, slice}
use mathlib.Core.Bool.{Bool, true, false}
use mathlib.Core.Option.{none, some}
use text.Mathlib.Text.{starts_with as begins, find?}
use snap_openstack.Prelude.Tests.{if◌then◌else◌}

-- `s + t`
abbrev pub join : String → String → String
join s t = s ++ t

-- `s.startswith(t)`
abbrev pub starts_with : String → String → Bool
starts_with s t = begins s t

-- `t in s`
abbrev pub contains : String → String → Bool
contains s t = elim (find? s t) [ none ↦ false | some n ↦ true ]

-- `s[n:]`, for an `n` at which a character begins.
abbrev pub drop_text : ℕ → String → String
drop_text n s = slice s n (len s)

-- `s.removeprefix(t)`
abbrev pub remove_prefix : String → String → String
remove_prefix s t = if starts_with s t then drop_text (len t) s else s
