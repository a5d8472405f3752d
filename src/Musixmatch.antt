-- ===== src/Musixmatch.antt =====
-- internal/musixmatch/client.go: what FindLyrics makes of a reply. The request, the JSON parser and the
-- decoding of its nodes are parameters: a reply says what they give.
use Prim.Native.String.{String}
use mxlrc_go.Common.{
  ℕ, Bool, ◌&&◌, ◌==◌, List, [], Option, none, some, text_eq, if◌then◌else◌, true, false, refl, inl,
  inr, ◌∷◌, arith, ◌∙◌, ◌≡◌, zero, suc,
}
use mxlrc_go.Models.{Track, Lyrics, Lines, Song}
pub mod Answers

-- A node of the body that is missing, that does not decode, or its value.
pub data Node (A : Type 0) : Type 0 where
  missing_node bad_node : Node A
  node : A → Node A

-- The fields that FindLyrics reads; a number that is missing is 0 and a text that is missing is empty.
pub record Message : Type 0 where
  pub status_code : ℕ
  pub hint : String
  pub matcher_status : ℕ
  pub track : Node Track
  pub subtitles : Node (List Lines)
  pub restricted : ℕ
  pub lyrics : Node Lyrics

pub data Body : Type 0 where
  unread too_large not_json : Body
  message : Message → Body

-- The request fails, or there is a response with its status and its body.
pub data Reply : Type 0 where
  request_failed : Reply
  response : ℕ → Body → Reply

-- The errors by what errors.Is tells apart.
pub data FindError : Type 0 where
  unauthorized rate_limited not_found other_error : FindError

pub data Found : Type 0 where
  found : Song → Found
  failed : FindError → Found

abbrev pub song_with : Track → List Lines → String → Song
song_with track lines body = record {
  track = track;
  lyrics = record { lyrics_body = body };
  subtitles = record { lines = lines };
}

abbrev pub with_subtitles : Track → Node (List Lines) → Found
with_subtitles track (node lines) = found (song_with track lines "")
with_subtitles track missing_node = failed other_error
with_subtitles track bad_node = failed other_error

abbrev pub with_lyrics : Track → Node Lyrics → Found
with_lyrics track (node lyrics) = found (song_with track [] lyrics.lyrics_body)
with_lyrics track missing_node = failed other_error
with_lyrics track bad_node = failed other_error

-- What follows the track: synced lyrics, plain lyrics or none.
unfoldable pub song_of_track : Message → Track → Found
song_of_track m track =
    if track.has_subtitles == 1
    then with_subtitles track m.subtitles
    else if track.has_lyrics == 1
    then if m.restricted == 1 then failed other_error else with_lyrics track m.lyrics
    else if track.instrumental == 1
    then found (song_with track [] "")
    else failed other_error

abbrev pub matched : Message → Node Track → Found
matched m (node track) = song_of_track m track
matched m missing_node = failed other_error
matched m bad_node = failed other_error

unfoldable pub read_message : Message → Found
unfolding song_of_track
read_message m =
    if (m.status_code == 401) && text_eq m.hint "renew"
    then failed unauthorized
    else if m.matcher_status == 200
    then matched m m.track
    else if m.matcher_status == 401
    then failed unauthorized
    else if m.matcher_status == 404
    then failed not_found
    else failed other_error

abbrev pub read_body : Body → Found
read_body unread = failed other_error
read_body too_large = failed other_error
read_body not_json = failed other_error
read_body (message m) = read_message m

-- The switch on the status of the response.
unfoldable pub status_error : ℕ → FindError
status_error status =
    if status == 401
    then unauthorized
    else if status == 429
    then rate_limited
    else if status == 404
    then not_found
    else other_error

-- FindLyrics
unfoldable pub find_lyrics : Reply → Found
unfolding read_message status_error
find_lyrics request_failed = failed other_error
find_lyrics (response status body) =
    if status == 200 then read_body body else failed (status_error status)
