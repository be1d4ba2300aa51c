-- ===== src/Common/Strings.antt =====
-- `str`: a list of Unicode code points. The order of `String` is that of its UTF-8 bytes, which is
-- the order of its code points.
use Prim.Native.Nat.{ℕ, ◌+◌}
use Prim.Native.Char.{code}
use Prim.Native.String.{String}
use mathlib.Core.Bool.{Bool, true, false, ◌&&◌, ◌||◌}
use mathlib.Core.List.{List, [], ◌∷◌}
use tangle.Common.Tests.{ltb, leb, ◌==◌, if◌then◌else◌}
use tangle.Common.Order.{list_ord, nat_ord}

abbrev pub Text : Type 0
Text = List ℕ

-- A literal.
abbrev pub codes : String → Text
codes String.[] = []
codes (String.◌∷◌ c s) = code c ∷ codes s

-- `char::len_utf8`, and `str::len`, which counts bytes.
abbrev pub len_utf8 : ℕ → ℕ
len_utf8 c = if ltb c 0x80 then 1 else if ltb c 0x800 then 2 else if ltb c 0x10000 then 3 else 4

abbrev pub byte_len : Text → ℕ
byte_len [] = 0
byte_len (c ∷ s) = len_utf8 c + byte_len s

-- `char::is_whitespace`: the property White_Space.
abbrev pub is_whitespace : ℕ → Bool
is_whitespace c =
    (leb 9 c && leb c 13)
    || c == 0x20
    || c == 0x85
    || c == 0xa0
    || c == 0x1680
    || (leb 0x2000 c && leb c 0x200a)
    || c == 0x2028
    || c == 0x2029
    || c == 0x202f
    || c == 0x205f
    || c == 0x3000

-- `char::is_control`: the general category Cc.
abbrev pub is_control : ℕ → Bool
is_control c = ltb c 0x20 || (leb 0x7f c && leb c 0x9f)

-- `value.trim() != value`: a whitespace character stands first or last.
abbrev pub last_is_whitespace : Text → Bool
last_is_whitespace [] = false
last_is_whitespace (c ∷ []) = is_whitespace c
last_is_whitespace (c ∷ d ∷ s) = last_is_whitespace (d ∷ s)

abbrev pub first_is_whitespace : Text → Bool
first_is_whitespace [] = false
first_is_whitespace (c ∷ s) = is_whitespace c

abbrev pub is_trimmed : Text → Bool
is_trimmed s = if first_is_whitespace s then false else if last_is_whitespace s then false else true

-- `value.trim().is_empty()`.
abbrev pub all_whitespace : Text → Bool
all_whitespace [] = true
all_whitespace (c ∷ s) = is_whitespace c && all_whitespace s
