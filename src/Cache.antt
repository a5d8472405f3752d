-- ===== src/Cache.antt =====
-- internal/cache/cache.go: the repository of the lyrics_cache table.
use mxlrc_go.Common.{
  ℕ, suc, ltb, leb, String, Bool, [], ◌∷◌, ◌++◌, Option, none, some, ◌&&◌, ◌||◌, ◌==◌, text_eq,
  find_where, update_where, select, head?,
}
use mxlrc_go.Common.Sorting.{order_by}
use mxlrc_go.Store.Tables.{Db, CacheRow}
use mxlrc_go.Store.Session.{Result, ok, err, no_rows, M, exec, query}
use mxlrc_go.Queue.Items.{format_time}
pub mod Laws

-- artist=? AND title=?
abbrev pub is_of : String → String → CacheRow → Bool
is_of artist title r = text_eq r.artist artist && text_eq r.title title

-- The unique key (artist, title, album).
abbrev pub is_exactly : String → String → String → CacheRow → Bool
is_exactly artist title album r = is_of artist title r && text_eq r.album album

-- ORDER BY updated_at DESC, id DESC
unfoldable pub newer : CacheRow → CacheRow → Bool
newer a b = ltb b.updated_at a.updated_at || (a.updated_at == b.updated_at && leb b.id a.id)

abbrev pub lyrics_of : Option CacheRow → Result String
lyrics_of none = err no_rows
lyrics_of (some r) = ok r.lyrics

-- ON CONFLICT(artist, title, album) DO UPDATE SET lyrics, and the trigger on updated_at.
unfoldable pub upsert_lyrics :
    (artist title album lyrics : String) → ℕ → Db → Result (Unit {0} × Db)
upsert_lyrics artist title album lyrics at db =
    elim (find_where (is_exactly artist title album) db.cache) [
      | some _ ↦ ok (
        tt,
        record db {
          cache =
              update_where (is_exactly artist title album)
                (λ r. record r { lyrics = lyrics; updated_at = at }) db.cache;
        },
      )
      | none ↦ ok (
        tt,
        record db {
          cache =
              db.cache
              ++ (record {
                id = db.cache_seq;
                artist = artist;
                title = title;
                album = album;
                lyrics = lyrics;
                created_at = at;
                updated_at = at;
              })
                ∷ [];
          cache_seq = suc db.cache_seq;
        },
      )
    ]

module _ (normalize_key : String → String) where
  unfoldable pub lookup_exact : (artist title album : String) → M Db String
  lookup_exact artist title album = query (λ db. lyrics_of (
      find_where (is_exactly (normalize_key artist) (normalize_key title) (normalize_key album))
        db.cache))

  unfoldable pub lookup_fallback : (artist title : String) → M Db String
  unfolding newer
  lookup_fallback artist title = query (λ db. lyrics_of (
      head?
        (order_by newer (select (is_of (normalize_key artist) (normalize_key title)) db.cache))))

  unfoldable pub store : (artist title album lyrics : String) → ℕ → M Db (Unit {0})
  unfolding upsert_lyrics
  store artist title album lyrics now = exec (
      upsert_lyrics (normalize_key artist) (normalize_key title) (normalize_key album) lyrics
        (format_time now))
