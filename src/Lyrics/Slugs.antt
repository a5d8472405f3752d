-- ===== src/Lyrics/Slugs.antt =====
-- Slugify (internal/lyrics/slugify.go). `nfkc` is the NFKC form of golang.org/x/text.
use Prim.Native.Char.{Char, code}
use Prim.Native.String.{String}
use mxlrc_go.Common.{ℕ, Bool, ◌||◌, ◌&&◌, ◌==◌, if◌then◌else◌, text_eq, false}

-- The class of reForbidden.
abbrev pub is_forbidden : ℕ → Bool
is_forbidden c =
    (c == 92)
    || (c == 47)
    || (c == 58)
    || (c == 42)
    || (c == 63)
    || (c == 34)
    || (c == 60)
    || (c == 62)
    || (c == 124)

unfoldable pub drop_forbidden : String → String
drop_forbidden String.[] = ""
drop_forbidden (String.◌∷◌ c s) =
    let rest = drop_forbidden s in if is_forbidden (code c) then rest else String.◌∷◌ c rest

abbrev pub starts_with_dash : String → Bool
starts_with_dash String.[] = false
starts_with_dash (String.◌∷◌ c s) = code c == 45

-- One dash for a run of them: a dash before another is dropped.
unfoldable pub single_dashes : String → String
single_dashes String.[] = ""
single_dashes (String.◌∷◌ c s) =
    let rest = single_dashes s in
    if (code c == 45) && starts_with_dash s then rest else String.◌∷◌ c rest

abbrev pub is_edge : ℕ → Bool
is_edge c = (c == 45) || (c == 95)

unfoldable pub trim_edges_left : String → String
trim_edges_left String.[] = ""
trim_edges_left (String.◌∷◌ c s) = if is_edge (code c) then trim_edges_left s else String.◌∷◌ c s

abbrev pub keep_unless_edge : Char → String → String
keep_unless_edge c rest = if text_eq rest "" && is_edge (code c) then "" else String.◌∷◌ c rest

unfoldable pub trim_edges_right : String → String
trim_edges_right String.[] = ""
trim_edges_right (String.◌∷◌ c s) = keep_unless_edge c (trim_edges_right s)

module _ (nfkc : String → String) where
  unfoldable pub slugify : String → String
  unfolding drop_forbidden single_dashes trim_edges_left trim_edges_right
  slugify s = trim_edges_right (trim_edges_left (single_dashes (drop_forbidden (nfkc s))))
