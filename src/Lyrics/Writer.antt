-- ===== src/Lyrics/Writer.antt =====
-- WriteLRC (internal/lyrics/writer.go).
use Prim.Native.String.{String}
use mxlrc_go.Common.{Option, none, some, [], ◌∷◌}
use mxlrc_go.Models.{Song}
use mxlrc_go.Store.Session.{
  Result, ok, err, no_file, nothing_to_save, M, attempt, pure, throw, ◌>>=◌, ◌>>◌,
}
use mxlrc_go.Strings.Paths.{join_path}
use mxlrc_go.Lyrics.Contents.{Content, content_of, file_name, stale_path}
use mxlrc_go.Lyrics.Files.{Files, create_file, write, close, chmod, remove_file, rename}

-- What is not an error: a file that was not there.
abbrev pub unless_missing : Result (Unit {0}) → M Files (Unit {0})
unless_missing (ok _) = pure tt
unless_missing (err no_file) = pure tt
unless_missing (err e) = throw e

unfoldable pub remove_existing : String → M Files (Unit {0})
unfolding remove_file
remove_existing fp = attempt (remove_file fp) >>= unless_missing

-- A sidecar that cannot be removed is only logged.
unfoldable pub remove_stale : Option String → M Files (Unit {0})
unfolding remove_file
remove_stale none = pure tt
remove_stale (some stale) = attempt (remove_file stale) >>= λ _. pure tt

-- The deferred function: an error removes the temporary file.
abbrev pub cleaned : String → Result (Unit {0}) → M Files (Unit {0})
cleaned tmp (ok _) = pure tt
cleaned tmp (err e) = attempt (remove_file tmp) >>= λ _. throw e

unfoldable pub deferring : String → M Files (Unit {0}) → M Files (Unit {0})
unfolding remove_file
deferring tmp body = attempt body >>= cleaned tmp

-- From the first write to the end.
unfoldable pub replace_file : (part : String) → Content → (tmp fp : String) → M Files (Unit {0})
unfolding write rename remove_existing remove_stale stale_path
replace_file part content tmp fp = do
  write part content.text tmp
  close
  chmod
  remove_existing fp
  rename tmp fp
  remove_stale (stale_path fp)

unfoldable pub save_file : (part : String) → Content → (tmp fp : String) → M Files (Unit {0})
unfolding create_file deferring replace_file
save_file part content tmp fp = do create_file tmp; deferring tmp (replace_file part content tmp fp)

-- `tmp_path` is the name that CreateTemp makes of the directory and the file's name.
module _ (nfkc : String → String) (tmp_path : String → String → String) (part : String) where
  abbrev save_content : Song → String → String → Option Content → M Files (Unit {0})
  save_content song filename outdir none = throw nothing_to_save
  save_content song filename outdir (some content) =
      save_file part content (tmp_path outdir (file_name nfkc song filename content.write_tags))
        (join_path (outdir ∷ file_name nfkc song filename content.write_tags ∷ []))

  unfoldable pub write_lrc : Song → String → String → M Files (Unit {0})
  unfolding save_file file_name content_of join_path
  write_lrc song filename outdir = save_content song filename outdir (content_of song)
