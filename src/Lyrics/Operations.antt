-- ===== src/Lyrics/Operations.antt =====
-- What the operations of the writer (internal/lyrics/writer.go) do to the files, and which file the
-- sidecar is.
use Prim.Native.String.{String, len, ◌++◌}
use mathlib.Core.Bool.{true≢false}
use mxlrc_go.Common.{
  ◌<◌, ◌≢◌, Bool-cases, sym, subst, ap, text_eq, eq_iff, Option, true, false, refl, none, some, inl,
  inr, arith, ◌∙◌, ◌≡◌,
}
use mxlrc_go.Store.Session.{Session, Result, ok, err, no_file}
use mxlrc_go.Lyrics.Contents.{stale_path}
use mxlrc_go.Lyrics.Files.{Files, put, remove_file, created, removed, renamed}
use mxlrc_go.Store.Outcomes.{exec-eq-err}
use mxlrc_go.Strings.Splitting.{trim_suffix}
use mxlrc_go.Strings.Paths.{ext}
use mxlrc_go.Strings.Suffixes.{trim_suffix-changed}

abbrev pub Other : String → String → Type 0
Other p q = text_eq p q ≡ false

pub put_same : (p : String) (v : Option String) (files : Files) → put p v files p ≡ v
put_same p v files = rw ((eq_iff p p).1 refl) refl

pub put_elsewhere :
    (p q : String) (v : Option String) (files : Files) → Other q p → put p v files q ≡ files q
put_elsewhere p q v files h = rw h refl

abbrev pub state_or : Files → Result (Unit {0} × Files) → Files
state_or files (ok (u, files')) = files'
state_or files (err e) = files

-- What an operation that has succeeded has made of the files.
pub created-eq :
    (p : String) (files files' : Files) (o : Option String) {u : Unit {0}}
    → created p files o ≡ ok (u, files')
    → put p (some "") files ≡ files'
created-eq p files files' none e = ap (state_or files) e
created-eq p files files' (some text) e = absurd (cc)

pub removed-eq :
    (p : String) (files files' : Files) (o : Option String) {u : Unit {0}}
    → removed p files o ≡ ok (u, files')
    → put p none files ≡ files'
removed-eq p files files' none e = absurd (cc)
removed-eq p files files' (some text) e = ap (state_or files) e

pub renamed-eq :
    (p q text : String) (files files' : Files) (o : Option String) {u : Unit {0}}
    → o ≡ some text
    → renamed p q files o ≡ ok (u, files')
    → put q (some text) (put p none files) ≡ files'
renamed-eq p q text files files' none k e = absurd (cc)
renamed-eq p q text files files' (some text') k e =
    ap (λ t. put q (some t) (put p none files)) (ground arith) ∙ ap (state_or files) e

pub removed-no_file :
    (p : String) (files : Files) (o : Option String) → removed p files o ≡ err no_file → o ≡ none
removed-no_file p files none e = refl
removed-no_file p files (some text) e = absurd (cc)

-- A removal that finds no file.
pub remove_file-no_file :
    (p : String) (s : Session Files) → (remove_file p s).0 ≡ err no_file → s.db p ≡ none
unfolding remove_file
remove_file-no_file p s h = elim (exec-eq-err (λ files. removed p files (files p)) s h) [
  | inl driver ↦ absurd (cc)
  | inr missing ↦ removed-no_file p s.db (s.db p) missing
]

pub Other-sym : (p q : String) → Other p q → Other q p
Other-sym p q h = elim (Bool-cases (text_eq q p)) [
  | inl same ↦
      let e : text_eq p q ≡ true = (eq_iff p q).1 (sym ((eq_iff q p).0 same)) in absurd (cc)
  | inr other ↦ other
]

pub put-none : (p q : String) (files : Files) → files q ≡ none → put p none files q ≡ none
put-none p q files h = elim (Bool-cases (text_eq q p)) [
  | inl same ↦ rw same refl
  | inr other ↦ rw other h
]

pub suffix-Other :
    (fp t u : String) → len t ≡ len u → 0 < len u → t ≢ u → Other fp (trim_suffix fp t ++ u)
suffix-Other fp t u same positive differ = elim (Bool-cases (text_eq fp (trim_suffix fp t ++ u))) [
  | inl e ↦ absurd (
      trim_suffix-changed fp t u same positive differ
        (sym ((eq_iff fp (trim_suffix fp t ++ u)).0 e)))
  | inr e ↦ e
]

abbrev pub lrc : String
lrc = ".lrc"

abbrev pub txt : String
txt = ".txt"

pub lrc_or_txt : lrc ≢ txt
lrc_or_txt e = true≢false (sym ((eq_iff lrc txt).1 e))

-- The sidecar is another file.
pub stale_path-Other : (fp stale : String) → stale_path fp ≡ some stale → Other fp stale
unfolding stale_path
stale_path-Other fp stale h = elim (Bool-cases (text_eq (ext fp) ".lrc")) [
  | inl is_lrc ↦
      subst (Other fp) {x = trim_suffix fp ".lrc" ++ ".txt"} (ground arith)
        (suffix-Other fp ".lrc" ".txt" refl (omega arith) lrc_or_txt)
  | inr not_lrc ↦ elim (Bool-cases (text_eq (ext fp) ".txt")) [
    | inl is_txt ↦
        subst (Other fp) {x = trim_suffix fp ".txt" ++ ".lrc"} (ground arith)
          (suffix-Other fp ".txt" ".lrc" refl (omega arith) (λ e. lrc_or_txt (sym e)))
    | inr not_txt ↦ absurd (ground arith)
  ]
]
