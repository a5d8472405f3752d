-- ===== src/Scanner/Eligibility.antt =====
-- The results of ScanLibrary (internal/scanner/scanner.go).
use Prim.Native.String.{String}
use mxlrc_go.Common.{
  if◌then◌else◌, Bool, All, All-append, All-mono, In, subst, ℕ, List, Option, true, false, refl,
  none, some, inl, inr, [], ◌∷◌, ◌≡◌, zero, suc,
}
use mxlrc_go.Common.Sorting.{order_by, In-order_by}
use mxlrc_go.Models.{ScanResult}
use mxlrc_go.Store.Tables.{Status}
use mxlrc_go.Strings.Paths.{join_path}
use mxlrc_go.Scanner.Walking.{
  Scanned, scanned, failed, canceled, unless_ended, entry_before, Disk, ScanOptions, Entry,
  scan_file, join_results, scan_entries, read_entries, scan_dir, scan_library, levels,
}
use mxlrc_go.Scanner.Found.{IsFound, scan_file-IsFound, deeper-IsFound}

module _ (disk : Disk) (opts : ScanOptions) where
  -- What holds of every result, where the scan returns any.
  abbrev Every : (ScanResult Status → Type 0) → Scanned → Type 0
  Every P (failed e) = Unit
  Every P (scanned results) = All P results

  Every-mono :
      (P Q : ScanResult Status → Type 0) (o : Scanned)
      → ((res : ScanResult Status) → P res → Q res)
      → Every P o
      → Every Q o
  Every-mono P Q (failed e) f h = tt
  Every-mono P Q (scanned results) f h = All-mono P Q f results h

  join_results-Every :
      (P : ScanResult Status → Type 0) (a b : Scanned)
      → Every P a
      → Every P b
      → Every P (join_results disk opts a b)
  join_results-Every P (failed e) b h k = tt
  join_results-Every P (scanned rs) (failed e) h k = tt
  join_results-Every P (scanned rs) (scanned rs') h k = All-append P rs rs' h k

  if-Every :
      (P : ScanResult Status → Type 0) (b : Bool) (x y : Scanned)
      → (b ≡ true → Every P x)
      → (b ≡ false → Every P y)
      → Every P (if b then x else y)
  if-Every P true x y h k = h refl
  if-Every P false x y h k = k refl

  unless_ended-Every :
      (P : ScanResult Status → Type 0) (path : String) (rest : Scanned)
      → Every P rest
      → Every P (unless_ended disk opts path rest)
  unless_ended-Every P path rest h =
      if-Every P (disk.context_ended path) (failed canceled) rest (λ e. tt) (λ e. h)

  scan_entries-Every :
      (P : ScanResult Status → Type 0) (deeper : String → Scanned) (dir : String) (es : List Entry)
      → ((e : Entry) → In e es → e.is_dir ≡ true → Every P (deeper (join_path (dir ∷ e.name ∷ []))))
      → ((e : Entry) → In e es → e.is_dir ≡ false → All P (scan_file disk opts dir e.name))
      → Every P (scan_entries disk opts deeper dir es)
  unfolding scan_entries
  scan_entries-Every P deeper dir [] h k = tt
  scan_entries-Every P deeper dir (e ∷ es) h k =
      unless_ended-Every P (join_path (dir ∷ e.name ∷ [])) _ (
        join_results-Every P
          (if e.is_dir
            then deeper (join_path (dir ∷ e.name ∷ []))
            else scanned (scan_file disk opts dir e.name))
          (scan_entries disk opts deeper dir es)
          (if-Every P e.is_dir (deeper (join_path (dir ∷ e.name ∷ [])))
            (scanned (scan_file disk opts dir e.name)) (h e (inl refl)) (k e (inl refl)))
          (scan_entries-Every P deeper dir es (λ x i. h x (inr i)) (λ x i. k x (inr i))))

  read_entries-Every :
      (n : ℕ) (deeper : String → Scanned) (dir : String) (o : Option (List Entry))
      → disk.read_dir dir ≡ o
      → ((es : List Entry) (e : Entry)
          → disk.read_dir dir ≡ some es
          → In e es
          → e.is_dir ≡ true
          → Every (IsFound disk opts n dir) (deeper (join_path (dir ∷ e.name ∷ []))))
      → Every (IsFound disk opts n dir) (read_entries disk opts deeper dir o)
  unfolding scan_entries
  read_entries-Every n deeper dir none listed h = tt
  read_entries-Every n deeper dir (some es) listed h =
      scan_entries-Every (IsFound disk opts n dir) deeper dir (order_by (entry_before opts.bfs) es)
        (λ e i d. h es e listed (In-order_by (entry_before opts.bfs) e es i) d)
        (λ e i f.
          scan_file-IsFound disk opts dir es listed n e (In-order_by (entry_before opts.bfs) e es i)
            f)

  scan_dir-Every :
      (left : ℕ) (dir : String) → Every (IsFound disk opts left dir) (scan_dir disk opts left dir)
  unfolding scan_dir
  scan_dir-Every zero dir =
      unless_ended-Every (IsFound disk opts zero dir) dir
        (read_entries disk opts (λ sub. scanned []) dir (disk.read_dir dir))
        (read_entries-Every zero (λ sub. scanned []) dir (disk.read_dir dir) refl
          (λ es e listed i d. tt))
  scan_dir-Every (suc left) dir =
      unless_ended-Every (IsFound disk opts (suc left) dir) dir
        (read_entries disk opts (scan_dir disk opts left) dir (disk.read_dir dir))
        (read_entries-Every (suc left) (scan_dir disk opts left) dir (disk.read_dir dir) refl
          λ es e listed i d.
            Every-mono (IsFound disk opts left (join_path (dir ∷ e.name ∷ [])))
              (IsFound disk opts (suc left) dir)
              (scan_dir disk opts left (join_path (dir ∷ e.name ∷ [])))
              (λ res. deeper-IsFound disk opts dir es listed left e res i d)
              (scan_dir-Every left (join_path (dir ∷ e.name ∷ []))))

  -- Every result of a library scan is a file that is listed in the root or in a directory that lies
  -- below it by at most MaxDepth levels, with its own path and directory, its name with .lrc for the
  -- extension, the tags that are read from it, and the status pending. Its extension is a supported one;
  -- where an .lrc stands beside it Update is set, and where a .txt does, Upgrade or Update is set or an
  -- .lrc is there too.
  pub scan_library-IsFound :
      (root : String) (results : List (ScanResult Status))
      → scan_library disk opts root ≡ scanned results
      → All (IsFound disk opts (levels disk opts opts.max_depth) root) results
  unfolding scan_library
  scan_library-IsFound root results h =
      subst (Every (IsFound disk opts (levels disk opts opts.max_depth) root)) h
        (scan_dir-Every (levels disk opts opts.max_depth) root)
