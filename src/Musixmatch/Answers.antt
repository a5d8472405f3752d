-- ===== src/Musixmatch/Answers.antt =====
-- What stands behind a song that FindLyrics returns (internal/musixmatch/client.go).
use mxlrc_go.Common.{◌==◌, Bool-cases, List, ◌⊎◌, ◌≢◌, refl, inl, inr, [], arith, ◌≡◌}
use mxlrc_go.Models.{Track, Song, Lines, Lyrics}
use mxlrc_go.Musixmatch.{
  Node, missing_node, bad_node, node, Message, Body, unread, too_large, not_json, message, Reply,
  request_failed, response, found, song_with, with_subtitles, with_lyrics, song_of_track, matched,
  read_message, read_body, find_lyrics,
}

-- The song is the matched track with its decoded subtitles, with its lyrics that are not restricted, or
-- as an instrumental.
abbrev pub IsBacked : Message → Song → Type 0
IsBacked m song =
    (track : Track) × (m.track ≡ node track)
    × (((track.has_subtitles ≡ 1)
          × ((lines : List Lines) × (m.subtitles ≡ node lines) × (song ≡ song_with track lines "")))
        ⊎ (((track.has_lyrics ≡ 1)
              × (m.restricted ≢ 1)
              × ((lyrics : Lyrics) × (m.lyrics ≡ node lyrics)
                  × (song ≡ song_with track [] lyrics.lyrics_body)))
            ⊎ ((track.instrumental ≡ 1) × (song ≡ song_with track [] ""))))

with_subtitles-found :
    (track : Track) (n : Node (List Lines)) (song : Song)
    → with_subtitles track n ≡ found song
    → (lines : List Lines) × (n ≡ node lines) × (song ≡ song_with track lines "")
with_subtitles-found track (node lines) song h = (lines, refl, ground arith)
with_subtitles-found track missing_node song h = absurd (cc)
with_subtitles-found track bad_node song h = absurd (cc)

with_lyrics-found :
    (track : Track) (n : Node Lyrics) (song : Song)
    → with_lyrics track n ≡ found song
    → (lyrics : Lyrics) × (n ≡ node lyrics) × (song ≡ song_with track [] lyrics.lyrics_body)
with_lyrics-found track (node lyrics) song h = (lyrics, refl, ground arith)
with_lyrics-found track missing_node song h = absurd (cc)
with_lyrics-found track bad_node song h = absurd (cc)

song_of_track-found :
    (m : Message) (track : Track) (song : Song)
    → m.track ≡ node track
    → song_of_track m track ≡ found song
    → IsBacked m song
unfolding song_of_track
song_of_track-found m track song e h = elim (Bool-cases (track.has_subtitles == 1)) [
  | inl synced ↦
      (track, e, inl (ground arith, with_subtitles-found track m.subtitles song (ground arith)))
  | inr no_subtitles ↦ elim (Bool-cases (track.has_lyrics == 1)) [
    | inl plain ↦ elim (Bool-cases (m.restricted == 1)) [
      | inl closed ↦ absurd (ground arith)
      | inr open_lyrics ↦ (
        track,
        e,
        inr (
            inl (
              ground arith,
              λ k. absurd (ground arith),
              with_lyrics-found track m.lyrics song (ground arith),
            )),
      )
    ]
    | inr no_lyrics ↦ elim (Bool-cases (track.instrumental == 1)) [
      | inl instrumental ↦ (track, e, inr (inr (ground arith, ground arith)))
      | inr nothing_found ↦ absurd (ground arith)
    ]
  ]
]

matched-found :
    (m : Message) (n : Node Track) (song : Song)
    → m.track ≡ n
    → matched m n ≡ found song
    → IsBacked m song
unfolding song_of_track
matched-found m (node track) song e h = song_of_track-found m track song e h
matched-found m missing_node song e h = absurd (cc)
matched-found m bad_node song e h = absurd (cc)

read_message-found :
    (m : Message) (song : Song)
    → read_message m ≡ found song
    → (m.matcher_status ≡ 200) × IsBacked m song
unfolding read_message
read_message-found m song h = elim (Bool-cases (m.matcher_status == 200)) [
  | inl matcher ↦ (ground arith, matched-found m m.track song refl (ground arith))
  | inr other ↦ absurd (ground arith)
]

read_body-found :
    (b : Body) (song : Song)
    → read_body b ≡ found song
    → (m : Message) × (b ≡ message m) × (m.matcher_status ≡ 200) × IsBacked m song
read_body-found unread song h = absurd (cc)
read_body-found too_large song h = absurd (cc)
read_body-found not_json song h = absurd (cc)
read_body-found (message m) song h =
    let (ok?, backed) = read_message-found m song h in (m, refl, ok?, backed)

-- A song that FindLyrics returns comes from a response with the status 200 whose matcher has status 200,
-- and is the matched track with its decoded subtitles, with its lyrics that are not restricted, or as an
-- instrumental.
pub find_lyrics-found :
    (reply : Reply) (song : Song)
    → find_lyrics reply ≡ found song
    → (m : Message) × (reply ≡ response 200 (message m))
      × (m.matcher_status ≡ 200)
      × IsBacked m song
unfolding find_lyrics
find_lyrics-found request_failed song h = absurd (cc)
find_lyrics-found (response status body) song h = elim (Bool-cases (status == 200)) [
  | inl fine ↦
      let (m, e, matcher, backed) = read_body-found body song (ground arith) in
      let two : status ≡ 200 = ground arith in (m, (λ i. response (two i) (e i)), matcher, backed)
  | inr refused ↦ absurd (ground arith)
]
