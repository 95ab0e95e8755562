-- ===== src/Common/Words.antt =====
-- The methods of JavaScript texts that the services call.
use Prim.Native.Nat.{ℕ}
use Prim.Native.Char.{code}
use Prim.Native.String.{String}
use mathlib.Core.Bool.{Bool, ◌||◌, ◌&&◌, not}
use mathlib.Core.Option.{Option, none, some}
use mathlib.Core.List.{List, [], ◌∷◌}
use text.Mathlib.Text.{◌==◌ as str_eq}
use aivirteach_server.Common.Tests.{if◌then◌else◌, leb, ◌==◌}
use aivirteach_server.Common.Lists.{keep}

-- What `trim` takes for white space: the blanks of the language, and its line ends.
abbrev is_space : ℕ → Bool
is_space c =
    (leb 9 c && leb c 13)
    || c == 32
    || c == 0xa0
    || c == 0x1680
    || (leb 0x2000 c && leb c 0x200a)
    || c == 0x2028
    || c == 0x2029
    || c == 0x202f
    || c == 0x205f
    || c == 0x3000
    || c == 0xfeff

trim_start : String → String
trim_start String.[] = String.[]
trim_start (String.◌∷◌ c s) = if is_space (code c) then trim_start s else String.◌∷◌ c s

-- A character in front of a trimmed end; a blank at the very end goes.
trim_end : String → String
trim_end String.[] = String.[]
trim_end (String.◌∷◌ c s) =
    let rest = trim_end s in
    if is_space (code c) && str_eq rest "" then String.[] else String.◌∷◌ c rest

unfoldable pub trim : String → String
unfolding trim_start trim_end
trim s = trim_end (trim_start s)

-- `split('\n')`; a run of line ends makes empty parts, which the callers drop
lines_from : String → String × List String
lines_from String.[] = (String.[], [])
lines_from (String.◌∷◌ c s) =
    let rest = lines_from s in
    if code c == 10 then (String.[], rest.0 ∷ rest.1) else (String.◌∷◌ c rest.0, rest.1)

unfoldable pub split_lines : String → List String
unfolding lines_from
split_lines s = let parts = lines_from s in parts.0 ∷ parts.1

-- `.filter(Boolean)` on texts
abbrev pub nonempty : List String → List String
nonempty = keep (λ s. not (str_eq s ""))

-- `s.startsWith(prefix) ? s.slice(prefix.length) : ...`
strip_prefix : String → String → Option String
strip_prefix String.[] s = some s
strip_prefix (String.◌∷◌ c p) String.[] = none
strip_prefix (String.◌∷◌ c p) (String.◌∷◌ d s) =
    let rest = strip_prefix p s in if code c == code d then rest else none

unfoldable pub after_prefix : String → String → Option String
unfolding strip_prefix
after_prefix prefix s = strip_prefix prefix s
