-- ===== src/Base/Text.antt =====
-- Python's operations on texts: white space, slices, and `upper` on the ASCII letters.
use Prim.Native.String.{String}
use Prim.Native.Char.{Char, code}
use Prim.Native.Nat.{ℕ, zero, suc}
use mathlib.Core.Option.{Option, none, some}
use mathlib.Core.Bool.{Bool, true, false, ◌||◌, ◌&&◌}
use sarkfxbot.Base.Tests.{leb, ◌==◌, if◌then◌else◌}

-- The code points for which `str.isspace` holds.
abbrev pub is_space : ℕ → Bool
is_space c =
    leb 9 c && leb c 13
    || leb 28 c && leb c 32
    || c == 0x85
    || c == 0xa0
    || c == 0x1680
    || leb 0x2000 c && leb c 0x200a
    || c == 0x2028
    || c == 0x2029
    || c == 0x202f
    || c == 0x205f
    || c == 0x3000

-- not text.strip()
unfoldable pub is_blank : String → Bool
is_blank String.[] = true
is_blank (String.◌∷◌ c s) = is_space (code c) && is_blank s

-- not text
unfoldable pub is_missing : String → Bool
is_missing String.[] = true
is_missing (String.◌∷◌ c s) = false

-- text[:n] and text[n:]
abbrev pub take : ℕ → String → String
take zero s = String.[]
take (suc n) String.[] = String.[]
take (suc n) (String.◌∷◌ c s) = String.◌∷◌ c (take n s)

abbrev pub drop : ℕ → String → String
drop zero s = s
drop (suc n) String.[] = String.[]
drop (suc n) (String.◌∷◌ c s) = drop n s

-- The character at the same place in the second text, or the character itself.
unfoldable pub exchanged : Char → String → String → Char
exchanged c (String.◌∷◌ a s) (String.◌∷◌ b t) = if code c == code a then b else exchanged c s t
exchanged c _ _ = c

-- text.upper(), for the ASCII letters, which the names of symbols and currencies have
unfoldable pub upper : String → String
unfolding exchanged
upper String.[] = String.[]
upper (String.◌∷◌ c s) =
    String.◌∷◌ (exchanged c "abcdefghijklmnopqrstuvwxyz" "ABCDEFGHIJKLMNOPQRSTUVWXYZ") (upper s)

-- text.lower(), for the ASCII letters
unfoldable pub lower : String → String
unfolding exchanged
lower String.[] = String.[]
lower (String.◌∷◌ c s) =
    String.◌∷◌ (exchanged c "ABCDEFGHIJKLMNOPQRSTUVWXYZ" "abcdefghijklmnopqrstuvwxyz") (lower s)

-- Python's `text.startswith(prefix)`, with what follows the prefix
unfoldable pub rest_after : String → String → Option String
rest_after String.[] s = some s
rest_after (String.◌∷◌ a p) String.[] = none
rest_after (String.◌∷◌ a p) (String.◌∷◌ b s) = if code a == code b then rest_after p s else none

-- Every character passes the test on its code point.
unfoldable pub all_chars : (ℕ → Bool) → String → Bool
all_chars p String.[] = true
all_chars p (String.◌∷◌ c s) = p (code c) && all_chars p s

-- The text without the characters that pass the test.
unfoldable pub without : (ℕ → Bool) → String → String
without p String.[] = String.[]
without p (String.◌∷◌ c s) = if p (code c) then without p s else String.◌∷◌ c (without p s)
