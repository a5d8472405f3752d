-- ===== src/Strings/Paths.antt =====
-- Clean, Join, Dir, Base, Ext and IsAbs of Go's path/filepath on Unix.
use Prim.Native.String.{String, ◌++◌}
use text.Mathlib.Text.{starts_with}
use mxlrc_go.Common.{Bool, List, [], ◌∷◌, ◌||◌, text_eq, if◌then◌else◌}
use mxlrc_go.Strings.Splitting.{split, join}

abbrev slash : Prim.Native.Nat.ℕ
slash = 47

abbrev dot : Prim.Native.Nat.ℕ
dot = 46

-- The text after the last separator, and what stands before it.
abbrev pub last_of : String → List String → String
last_of a [] = a
last_of a (w ∷ ws) = last_of w ws

abbrev pub all_but_last : List String → List String
all_but_last [] = []
all_but_last (w ∷ []) = []
all_but_last (w ∷ v ∷ ws) = w ∷ all_but_last (v ∷ ws)

-- One element of the path; `stack` has the last one first.
abbrev climb : (rooted : Bool) → List String → List String
climb rooted [] = if rooted then [] else ".." ∷ []
climb rooted (w ∷ stack) = if text_eq w ".." then ".." ∷ w ∷ stack else stack

abbrev element : (rooted : Bool) → List String → String → List String
element rooted stack w =
    let up = climb rooted stack in
    if text_eq w "" || text_eq w "." then stack else if text_eq w ".." then up else w ∷ stack

elements : (rooted : Bool) → List String → List String → List String
elements rooted stack [] = stack
elements rooted stack (w ∷ ws) = elements rooted (element rooted stack w) ws

abbrev onto : List String → List String → List String
onto acc [] = acc
onto acc (w ∷ ws) = onto (w ∷ acc) ws

abbrev or_dot : String → String
or_dot s = if text_eq s "" then "." else s

unfoldable pub is_abs : String → Bool
is_abs path = starts_with path "/"

unfoldable pub clean : String → String
unfolding elements split join is_abs
clean path =
    let rooted = is_abs path in
    let rest = join "/" (onto [] (elements rooted [] (split slash path))) in
    if rooted then "/" ++ rest else or_dot rest

abbrev without_empty : List String → List String
without_empty [] = []
without_empty (w ∷ ws) = if text_eq w "" then without_empty ws else w ∷ without_empty ws

-- "" where every element is empty.
unfoldable pub join_path : List String → String
unfolding clean join
join_path ws = elim (without_empty ws) [ [] ↦ "" | v ∷ vs ↦ clean (join "/" (v ∷ vs)) ]

abbrev before_last : List String → String
before_last [] = ""
before_last (w ∷ ws) = join "/" (w ∷ ws) ++ "/"

unfoldable pub dir : String → String
unfolding clean split join
dir path = clean (before_last (all_but_last (split slash path)))

-- The last element that is not empty.
abbrev last_name : List String → String → String
last_name [] found = found
last_name (w ∷ ws) found = last_name ws (if text_eq w "" then found else w)

abbrev or_slash : String → String
or_slash s = if text_eq s "" then "/" else s

unfoldable pub base : String → String
unfolding split
base path = if text_eq path "" then "." else or_slash (last_name (split slash path) "")

abbrev last_extension : List String → String
last_extension [] = ""
last_extension (w ∷ []) = ""
last_extension (w ∷ v ∷ ws) = "." ++ last_of v ws

unfoldable pub ext : String → String
unfolding split
ext path = last_extension (split dot (last_of "" (split slash path)))
