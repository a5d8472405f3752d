-- ===== src/Lyrics/Files.antt =====
-- The operations of the file system that the writer calls. A session holds the contents of the files;
-- a statement that is refused is an operation that fails, which a write may do half-way.
use Prim.Native.String.{String}
use mxlrc_go.Common.{Bool, true, false, List, [], ◌∷◌, Option, none, some, text_eq, if◌then◌else◌}
use mxlrc_go.Store.Session.{
  Result, ok, err, file_exists, no_file, sql_failure, Session, M, exec, boundary,
}

abbrev pub Files : Type 0
Files = String → Option String

abbrev pub put : String → Option String → Files → Files
put p content files q = if text_eq q p then content else files q

abbrev pub created : String → Files → Option String → Result (Unit {0} × Files)
created p files (some _) = err file_exists
created p files none = ok (tt, put p (some "") files)

-- O_EXCL, as CreateTemp opens a file
unfoldable pub create_file : String → M Files (Unit {0})
create_file p = exec (λ files. created p files (files p))

-- The text that the file holds after a write that has failed is `part`.
abbrev pub write_outcome :
    (part text p : String) → Files → List Bool → Result (Unit {0}) × Session Files
write_outcome part text p files [] = (ok tt, record { db = put p (some text) files; faults = [] })
write_outcome part text p files (true ∷ rest) =
    (err sql_failure, record { db = put p (some part) files; faults = rest })
write_outcome part text p files (false ∷ rest) =
    (ok tt, record { db = put p (some text) files; faults = rest })

unfoldable pub write : (part text p : String) → M Files (Unit {0})
write part text p s = write_outcome part text p s.db s.faults

-- Close and Chmod leave the contents as they are.
abbrev pub close : M Files (Unit {0})
close = boundary

abbrev pub chmod : M Files (Unit {0})
chmod = boundary

abbrev pub removed : String → Files → Option String → Result (Unit {0} × Files)
removed p files none = err no_file
removed p files (some _) = ok (tt, put p none files)

unfoldable pub remove_file : String → M Files (Unit {0})
remove_file p = exec (λ files. removed p files (files p))

abbrev pub renamed : String → String → Files → Option String → Result (Unit {0} × Files)
renamed p q files none = err no_file
renamed p q files (some text) = ok (tt, put q (some text) (put p none files))

unfoldable pub rename : String → String → M Files (Unit {0})
rename p q = exec (λ files. renamed p q files (files p))
