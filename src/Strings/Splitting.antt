-- ===== src/Strings/Splitting.antt =====
-- Fields that are split and joined, and letters without their case:
-- Split, Join, Cut, HasSuffix, TrimSuffix, ToLower and EqualFold of Go's strings, for ASCII letters.
use Prim.Native.Char.{Char, code}
use Prim.Native.String.{String, len, slice, ◌++◌}
use mxlrc_go.Common.{
  ℕ, ◌-◌, Bool, ◌&&◌, leb, ◌==◌, List, [], ◌∷◌, Option, none, some, text_eq, if◌then◌else◌,
}

abbrev onto_first : Char → List String → List String
onto_first c [] = String.◌∷◌ c String.[] ∷ []
onto_first c (w ∷ ws) = String.◌∷◌ c w ∷ ws

-- Split at every character with the code `sep`.
unfoldable pub split : ℕ → String → List String
split sep String.[] = "" ∷ []
split sep (String.◌∷◌ c s) =
    let rest = split sep s in if code c == sep then "" ∷ rest else onto_first c rest

unfoldable pub join : String → List String → String
join sep [] = ""
join sep (w ∷ []) = w
join sep (w ∷ v ∷ ws) = w ++ (sep ++ join sep (v ∷ ws))

abbrev onto_left : Char → Option (String × String) → Option (String × String)
onto_left c none = none
onto_left c (some (before, after)) = some (String.◌∷◌ c before, after)

-- Cut at the first character with the code `sep`.
unfoldable pub cut : ℕ → String → Option (String × String)
cut sep String.[] = none
cut sep (String.◌∷◌ c s) =
    let rest = onto_left c (cut sep s) in if code c == sep then some ("", s) else rest

unfoldable pub has_suffix : String → String → Bool
has_suffix s t = leb (len t) (len s) && text_eq (slice s (len s - len t) (len s)) t

unfoldable pub trim_suffix : String → String → String
unfolding has_suffix
trim_suffix s t = if has_suffix s t then slice s 0 (len s - len t) else s

abbrev upper : ℕ → Bool
upper n = leb 65 n && leb n 90

abbrev lower_letter : Char → String
lower_letter c =
    if upper (code c)
    then slice "abcdefghijklmnopqrstuvwxyz" (code c - 65) (code c - 64)
    else String.◌∷◌ c String.[]

unfoldable pub to_lower : String → String
to_lower String.[] = ""
to_lower (String.◌∷◌ c s) = lower_letter c ++ to_lower s

unfoldable pub equal_fold : String → String → Bool
unfolding to_lower
equal_fold s t = text_eq (to_lower s) (to_lower t)
