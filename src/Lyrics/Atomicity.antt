-- ===== src/Lyrics/Atomicity.antt =====
-- WriteLRC (internal/lyrics/writer.go): the files that it leaves, however it ends.
use Prim.Native.String.{String}
use mxlrc_go.Common.{
  sym, subst, ◌⊎◌, ap, List, Bool, Option, true, false, refl, none, some, inl, inr, [], ◌∷◌, ◌∙◌,
  ◌≡◌,
}
use mxlrc_go.Store.Session.{
  Session, Error, Result, ok, err, no_file, attempt, pure, throw, boundary,
}
use mxlrc_go.Store.Triples.{Outcome, Ends, exec-Ends, >>=-Ends, attempt-Ends}
use mxlrc_go.Lyrics.Contents.{content_of, file_name, Content, stale_path}
use mxlrc_go.Lyrics.Files.{
  Files, put, create_file, write, close, chmod, remove_file, rename, created, write_outcome,
  removed, renamed,
}
use mxlrc_go.Lyrics.Writer.{
  unless_missing, remove_existing, remove_stale, cleaned, deferring, replace_file, save_file,
  write_lrc,
}
use mxlrc_go.Store.Outcomes.{exec_error, exec-eq-ok}
use mxlrc_go.Models.{Song}
use mxlrc_go.Strings.Paths.{join_path}
use mxlrc_go.Lyrics.Operations.{
  Other-sym, Other, put_same, put_elsewhere, state_or, created-eq, removed-eq, renamed-eq,
  remove_file-no_file, put-none, stale_path-Other,
}

module _ (part : String) (content : Content) (tmp fp : String) (before : Files)
    (apart : Other fp tmp) where
  -- Nothing but the temporary file has changed.
  abbrev Untouched : Files → Type 0
  Untouched files = (p : String) → Other p tmp → files p ≡ before p

  abbrev Staged : Files → Type 0
  Staged files = Untouched files × (files tmp ≡ some content.text)

  -- Nothing but the temporary file and the file has changed.
  abbrev pub Framed : Files → Type 0
  Framed files = (p : String) → Other p tmp → Other p fp → files p ≡ before p

  abbrev Cleared : Files → Type 0
  Cleared files = Framed files × (files tmp ≡ some content.text) × (files fp ≡ none)

  -- The file is as it was, or it is gone.
  abbrev pub Failed : Files → Type 0
  Failed files = Framed files × ((files fp ≡ before fp) ⊎ (files fp ≡ none))

  abbrev Renamed : Files → Type 0
  Renamed files = Framed files × (files fp ≡ some content.text) × (files tmp ≡ none)

  Untouched-Failed : (files : Files) → Untouched files → Failed files
  Untouched-Failed files h = (λ p a b. h p a, inl (h fp apart))

  create_file-Ends : Ends (λ files. files ≡ before) (create_file tmp) Untouched Failed
  unfolding create_file
  create_file-Ends =
      exec-Ends Untouched Failed (λ files. files ≡ before) (λ files. created tmp files (files tmp))
        (λ files a files' e h.
          subst Untouched (created-eq tmp files files' (files tmp) h)
            (λ p k. put_elsewhere tmp p (some "") files k ∙ ap (λ (f : Files). f p) e))
        (λ files e. Untouched-Failed files (λ p k. ap (λ (f : Files). f p) e))

  write-Ends : Ends Untouched (write part content.text tmp) Staged Failed
  unfolding write
  write-Ends s h = cases s.faults
    where
      wrote : (v : Option String) → Untouched (put tmp v s.db)
      wrote v p k = put_elsewhere tmp p v s.db k ∙ h p k

      cases :
          (faults : List Bool)
          → Outcome Staged Failed
              (write_outcome part content.text tmp s.db faults).0
              (write_outcome part content.text tmp s.db faults).1.db
      cases [] = (wrote (some content.text), put_same tmp (some content.text) s.db)
      cases (true ∷ rest) = Untouched-Failed (put tmp (some part) s.db) (wrote (some part))
      cases (false ∷ rest) = (wrote (some content.text), put_same tmp (some content.text) s.db)

  boundary-Ends : Ends Staged boundary Staged Failed
  boundary-Ends =
      exec-Ends Staged Failed Staged (λ files. ok (tt, files))
        (λ files a files' h e. subst Staged (ap (state_or files) e) h)
        (λ files h. Untouched-Failed files h.0)

  -- The file is taken away from the staged state.
  gone-Cleared : (files : Files) → Staged files → Cleared (put fp none files)
  gone-Cleared files h = (
    λ p a b. put_elsewhere fp p none files b ∙ h.0 p a,
    put_elsewhere fp tmp none files (Other-sym fp tmp apart) ∙ h.1,
    put_same fp none files,
  )

  after_remove :
      (r : Result (Unit {0})) (s t : Session Files)
      → Staged s.db
      → (r ≡ ok tt → put fp none s.db ≡ t.db)
      → ((e : Error) → r ≡ err e → t.db ≡ s.db)
      → (r ≡ err no_file → s.db fp ≡ none)
      → Outcome Cleared Failed (unless_missing r t).0 (unless_missing r t).1.db
  after_remove (ok u) s t h done same missing = subst Cleared (done refl) (gone-Cleared s.db h)
  after_remove (err no_file) s t h done same missing =
      let e = same no_file refl in
      (
        λ p a b. ap (λ (f : Files). f p) e ∙ h.0 p a,
        ap (λ (f : Files). f tmp) e ∙ h.1,
        ap (λ (f : Files). f fp) e ∙ missing refl,
      )
  after_remove (err e) s t h done same missing =
      subst Failed (sym (same e refl)) (Untouched-Failed s.db h.0)

  remove_existing-Ends : Ends Staged (remove_existing fp) Cleared Failed
  unfolding remove_existing remove_file
  remove_existing-Ends s h =
      let f : Files → Result (Unit {0} × Files) = λ files. removed fp files (files fp) in
      after_remove (remove_file fp s).0 s (remove_file fp s).1 h
        (λ k. removed-eq fp s.db (remove_file fp s).1.db (s.db fp) (exec-eq-ok f s k))
        (λ e k. exec_error f s k) (remove_file-no_file fp s)

  rename-Ends : Ends Cleared (rename tmp fp) Renamed Failed
  unfolding rename
  rename-Ends =
      exec-Ends Renamed Failed Cleared (λ files. renamed tmp fp files (files tmp))
        (λ files a files' h e.
          let (framed, staged, gone) = h in
          subst Renamed (renamed-eq tmp fp content.text files files' (files tmp) staged e) (
            λ p a b.
                put_elsewhere fp p (some content.text) (put tmp none files) b
                ∙ (put_elsewhere tmp p none files a ∙ framed p a b),
            put_same fp (some content.text) (put tmp none files),
            put_elsewhere fp tmp (some content.text) (put tmp none files) (Other-sym fp tmp apart)
                ∙ put_same tmp none files,
          ))
        (λ files h. let (framed, staged, gone) = h in (framed, inr gone))

  -- Nothing but the temporary file, the file and the sidecar that it replaces has changed.
  abbrev pub Others : Files → Type 0
  Others files =
      (p : String)
      → Other p tmp
      → Other p fp
      → ((stale : String) → stale_path fp ≡ some stale → Other p stale)
      → files p ≡ before p

  abbrev pub Written : Files → Type 0
  Written files = Others files × (files fp ≡ some content.text) × (files tmp ≡ none)

  Renamed-Written : (files : Files) → Renamed files → Written files
  Renamed-Written files h = let (framed, new, gone) = h in (λ p a b c. framed p a b, new, gone)

  drop_stale-Written :
      (stale : String) (files : Files)
      → stale_path fp ≡ some stale
      → Other fp stale
      → Renamed files
      → Written (put stale none files)
  drop_stale-Written stale files e other h =
      let (framed, new, gone) = h in
      (
        λ p a b c. put_elsewhere stale p none files (c stale e) ∙ framed p a b,
        put_elsewhere stale fp none files other ∙ new,
        put-none stale tmp files gone,
      )

  remove_stale-Ends :
      (o : Option String) → stale_path fp ≡ o → Ends Renamed (remove_stale o) Written Failed
  unfolding remove_stale remove_file
  remove_stale-Ends none e = λ s h. Renamed-Written s.db h
  remove_stale-Ends (some stale) e =
      >>=-Ends Renamed Written Written Failed (attempt (remove_file stale)) (λ _. pure tt)
        (attempt-Ends Renamed Written Failed (remove_file stale) (
          exec-Ends Written Written Renamed (λ files. removed stale files (files stale))
            (λ files a files' h k.
              subst Written (removed-eq stale files files' (files stale) k)
                (drop_stale-Written stale files e (stale_path-Other fp stale e) h))
            Renamed-Written))
        (λ a s h. h)

  replace_file-Ends : Ends Untouched (replace_file part content tmp fp) Written Failed
  unfolding replace_file
  replace_file-Ends =
      >>=-Ends Untouched Staged Written Failed (write part content.text tmp) _ write-Ends λ _.
        >>=-Ends Staged Staged Written Failed close _ boundary-Ends λ _.
          >>=-Ends Staged Staged Written Failed chmod _ boundary-Ends λ _.
            >>=-Ends Staged Cleared Written Failed (remove_existing fp) _ remove_existing-Ends λ _.
              >>=-Ends Cleared Renamed Written Failed (rename tmp fp) _ rename-Ends
                λ _. remove_stale-Ends (stale_path fp) refl

  -- The deferred removal of the temporary file spoils nothing.
  remove_tmp-Ends : Ends Failed (remove_file tmp) Failed Failed
  unfolding remove_file
  remove_tmp-Ends =
      exec-Ends Failed Failed Failed (λ files. removed tmp files (files tmp))
        (λ files a files' h k. subst Failed (removed-eq tmp files files' (files tmp) k) (
          λ p b c. put_elsewhere tmp p none files b ∙ h.0 p b c,
          elim h.1 [
            | inl old ↦ inl (put_elsewhere tmp fp none files apart ∙ old)
            | inr gone ↦ inr (put_elsewhere tmp fp none files apart ∙ gone)
          ],
        ))
        (λ files h. h)

  cleaned-Outcome :
      (r : Result (Unit {0})) (s : Session Files)
      → Outcome Written Failed r s.db
      → Outcome Written Failed (cleaned tmp r s).0 (cleaned tmp r s).1.db
  cleaned-Outcome (ok u) s h = h
  cleaned-Outcome (err e) s h =
      >>=-Ends {B = Unit {0}} Failed Failed Written Failed (attempt (remove_file tmp))
        (λ _. throw e) (attempt-Ends Failed Failed Failed (remove_file tmp) remove_tmp-Ends)
        (λ _ t k. k) s h

  save_file-Ends : Ends (λ files. files ≡ before) (save_file part content tmp fp) Written Failed
  unfolding save_file deferring
  save_file-Ends =
      >>=-Ends (λ files. files ≡ before) Untouched Written Failed (create_file tmp)
        (λ _. deferring tmp (replace_file part content tmp fp)) create_file-Ends
        (λ _ s h.
          cleaned-Outcome (replace_file part content tmp fp s).0
            (replace_file part content tmp fp s).1 (replace_file-Ends s h))

module _ (nfkc : String → String) (tmp_path : String → String → String) (part : String) where
  -- The path that WriteLRC computes for a song that can be saved, and that of its temporary file.
  abbrev pub target : Song → String → String → Content → String
  target song filename outdir content =
      join_path (outdir ∷ file_name nfkc song filename content.write_tags ∷ [])

  abbrev pub temporary : Song → String → String → Content → String
  temporary song filename outdir content =
      tmp_path outdir (file_name nfkc song filename content.write_tags)

  -- For a song that can be saved, and a temporary path other than the file's: a WriteLRC that succeeds
  -- leaves the whole text in the file and no temporary file; one that fails, at whatever operation,
  -- leaves the file as it was or removed, never partly written; and it touches no other file, but for
  -- the sidecar of the other format where it succeeds.
  pub write_lrc-Written :
      (song : Song) (filename outdir : String) (content : Content) (s : Session Files)
      → content_of song ≡ some content
      → let fp = target song filename outdir content in
        let tmp = temporary song filename outdir content in
        (apart : Other fp tmp)
        → Outcome
            (Written part content tmp fp s.db apart)
            (Failed part content tmp fp s.db apart)
            (write_lrc nfkc tmp_path part song filename outdir s).0
            (write_lrc nfkc tmp_path part song filename outdir s).1.db
  unfolding write_lrc
  write_lrc-Written song filename outdir content s e apart = rw e (
      save_file-Ends part content (temporary song filename outdir content)
        (target song filename outdir content) s.db apart s refl)
