-- ===== src/Auth/Text.antt =====
-- strings.TrimSpace and the conversions of text that internal/auth uses, on texts of characters.
use Prim.Native.Char.{code}
use Prim.Native.String.{String}
use mxlrc_go.Common.{ℕ, Bool, ◌||◌, ◌&&◌, leb, ◌==◌, if◌then◌else◌, text_eq}

-- unicode.IsSpace
abbrev is_space : ℕ → Bool
is_space c =
    (leb 9 c && leb c 13)
    || (c == 32)
    || (c == 133)
    || (c == 160)
    || (c == 5760)
    || (leb 8192 c && leb c 8202)
    || (c == 8232)
    || (c == 8233)
    || (c == 8239)
    || (c == 8287)
    || (c == 12288)

trim_left : String → String
trim_left String.[] = String.[]
trim_left (String.◌∷◌ c s) = if is_space (code c) then trim_left s else String.◌∷◌ c s

-- `rest` is trimmed already.
abbrev keep_unless_blank : Prim.Native.Char.Char → String → String
keep_unless_blank c rest = if text_eq rest "" && is_space (code c) then "" else String.◌∷◌ c rest

trim_right : String → String
trim_right String.[] = String.[]
trim_right (String.◌∷◌ c s) = keep_unless_blank c (trim_right s)

unfoldable pub trim_space : String → String
unfolding trim_left trim_right
trim_space s = trim_right (trim_left s)
