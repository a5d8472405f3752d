-- ===== src/Cache/Laws.antt =====
-- The cache (internal/cache/cache.go): Store and the lookup that follows it.
use mxlrc_go.Common.{
  ◌∙◌, true, false, ◌⊎◌, text_eq, ℕ, String, ◌≡◌, refl, Option-cases, inl, inr, find_where,
  update_where, List, [], ◌∷◌, ◌++◌, some, none, Bool, eq_iff, arith,
}
use mxlrc_go.Store.Tables.{Db, CacheRow}
use mxlrc_go.Store.Session.{
  unchanged, settle, run_statement, sql_failure, exec, err, query, Session, ok, Result,
}
use mxlrc_go.Cache.{is_exactly, lyrics_of, upsert_lyrics, lookup_exact, store}
use mxlrc_go.Queue.Items.{format_time}
use mxlrc_go.Store.Outcomes.{exec-eq-ok}

find_where-update :
    (p : CacheRow → Bool) (f : CacheRow → CacheRow) (xs : List CacheRow) (r : CacheRow)
    → ((x : CacheRow) → p x ≡ true → p (f x) ≡ true)
    → find_where p xs ≡ some r
    → find_where p (update_where p f xs) ≡ some (f r)
find_where-update p f [] r h e = ground arith
find_where-update p f (x ∷ xs) r h e = ground (arith, h x, find_where-update p f xs r h)

find_where-append :
    (p : CacheRow → Bool) (xs : List CacheRow) (r : CacheRow)
    → find_where p xs ≡ none
    → p r ≡ true
    → find_where p (xs ++ r ∷ []) ≡ some r
find_where-append p [] r e h = ground arith
find_where-append p (x ∷ xs) r e h = ground (arith, find_where-append p xs r)

text_eq_refl : (a : String) → text_eq a a ≡ true
text_eq_refl a = (eq_iff a a).1 refl

is_exactly_refl : (r : CacheRow) → is_exactly r.artist r.title r.album r ≡ true
is_exactly_refl r =
    ground (arith, text_eq_refl r.artist, text_eq_refl r.title, text_eq_refl r.album)

-- The row that the key finds after an upsert.
upsert_lyrics-found :
    (artist title album lyrics : String) (at : ℕ) (db db' : Db) {u : Unit {0}}
    → upsert_lyrics artist title album lyrics at db ≡ ok (u, db')
    → lyrics_of (find_where (is_exactly artist title album) db'.cache) ≡ ok lyrics
unfolding upsert_lyrics
upsert_lyrics-found artist title album lyrics at db db' h =
    let p = is_exactly artist title album in
    elim (Option-cases (find_where p db.cache)) [
      | inl miss ↦
          let new : CacheRow = record {
            id = db.cache_seq;
            artist = artist;
            title = title;
            album = album;
            lyrics = lyrics;
            created_at = at;
            updated_at = at;
          } in
          ground (arith, find_where-append p db.cache new miss (is_exactly_refl new))
      | inr (r, hit) ↦ ground (
        arith,
        find_where-update p (λ r. record r { lyrics = lyrics; updated_at = at }) db.cache r
            (λ _ k. k) hit,
      )
    ]

answer : (db : Db) (rest : List Bool) (r : Result String) → (settle db rest (unchanged db r)).0 ≡ r
answer db rest (ok a) = refl
answer db rest (err e) = refl

query-outcome :
    (f : Db → Result String) (s : Session Db) (r : Result String)
    → f s.db ≡ r
    → ((query f s).0 ≡ r) ⊎ ((query f s).0 ≡ err sql_failure)
unfolding exec
query-outcome f s r h = go s.faults
  where
    go :
        (faults : List Bool)
        → let o = (run_statement (λ db. unchanged db (f db)) s.db faults).0 in
          (o ≡ r) ⊎ (o ≡ err sql_failure)
    go [] = inl (answer s.db [] (f s.db) ∙ h)
    go (true ∷ rest) = inr refl
    go (false ∷ rest) = inl (answer s.db rest (f s.db) ∙ h)

-- After a Store that succeeds, LookupExact of a track with the same normalized artist, title and
-- album returns the stored lyrics, unless the driver refuses the query.
pub store-then-lookup_exact :
    (normalize_key : String → String) (artist title album artist' title' album' lyrics : String)
    (now : ℕ) (s : Session Db) {u : Unit {0}}
    → normalize_key artist' ≡ normalize_key artist
    → normalize_key title' ≡ normalize_key title
    → normalize_key album' ≡ normalize_key album
    → (store normalize_key artist title album lyrics now s).0 ≡ ok u
    → let after = (store normalize_key artist title album lyrics now s).1 in
      ((lookup_exact normalize_key artist' title' album' after).0 ≡ ok lyrics)
      ⊎ ((lookup_exact normalize_key artist' title' album' after).0 ≡ err sql_failure)
unfolding store lookup_exact
store-then-lookup_exact nk artist title album artist' title' album' lyrics now s ea et eb h =
    let at = format_time now in
    rw (ea, et, eb)
      (query-outcome _ _ (ok lyrics) (
        upsert_lyrics-found (nk artist) (nk title) (nk album) lyrics at s.db _
          (exec-eq-ok (upsert_lyrics (nk artist) (nk title) (nk album) lyrics at) s h)))
