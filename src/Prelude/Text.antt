-- ===== src/Prelude/Text.antt =====
-- Python's `str` operations that the code calls: `strip`, and the truth of a text.
use Prim.Native.Char.{Char, code}
use Prim.Native.String.{String}
use mathlib.Core.Path.{◌≡◌, refl, ◌∙◌}
use mathlib.Core.Bool.{Bool, true, false, ◌&&◌, ◌||◌}
use native.Mathlib.Omega.{arith}
use pactix.Prelude.Tests.{leb, ◌==◌, if◌then◌else◌}

-- `str.isspace` of one character: the code points that `strip` removes.
unfoldable pub is_space : Char → Bool
is_space c =
    leb 9 (code c) && leb (code c) 13
    || leb 28 (code c) && leb (code c) 32
    || code c == 133
    || code c == 160
    || code c == 5760
    || leb 8192 (code c) && leb (code c) 8202
    || code c == 8232
    || code c == 8233
    || code c == 8239
    || code c == 8287
    || code c == 12288

-- `not s`
abbrev pub is_empty : String → Bool
is_empty String.[] = true
is_empty (String.◌∷◌ c s) = false

unfoldable pub lstrip : String → String
lstrip String.[] = String.[]
lstrip (String.◌∷◌ c s) = let rest = lstrip s in if is_space c then rest else String.◌∷◌ c s

unfoldable pub rstrip : String → String
rstrip String.[] = String.[]
rstrip (String.◌∷◌ c s) =
    let rest = rstrip s in if is_empty rest && is_space c then String.[] else String.◌∷◌ c rest

-- `s.strip()`
unfoldable pub strip : String → String
unfolding lstrip rstrip is_space
strip s = rstrip (lstrip s)

-- `not s.strip()`
unfoldable pub is_blank : String → Bool
unfolding strip
is_blank s = is_empty (strip s)

-- Every character is a space.
unfoldable pub all_spaces : String → Bool
all_spaces String.[] = true
all_spaces (String.◌∷◌ c s) = is_space c && all_spaces s

rstrip_empty : (s : String) → is_empty (rstrip s) ≡ all_spaces s
unfolding rstrip all_spaces
rstrip_empty String.[] = refl
rstrip_empty (String.◌∷◌ c s) = ground (arith, rstrip_empty s)

lstrip-all_spaces : (s : String) → all_spaces (lstrip s) ≡ all_spaces s
unfolding lstrip all_spaces
lstrip-all_spaces String.[] = refl
lstrip-all_spaces (String.◌∷◌ c s) = ground (arith, lstrip-all_spaces s)

-- A text is blank exactly when all of its characters are spaces.
pub is_blank-eq-all_spaces : (s : String) → is_blank s ≡ all_spaces s
unfolding is_blank
is_blank-eq-all_spaces s = rstrip_empty (lstrip s) ∙ lstrip-all_spaces s

-- ASCII characters only, and no capital letter among them: a text that `lower` leaves as it is.
unfoldable pub is_lower_ascii : String → Bool
is_lower_ascii String.[] = true
is_lower_ascii (String.◌∷◌ c s) =
    (leb (code c) 64 || leb 91 (code c) && leb (code c) 127) && is_lower_ascii s
