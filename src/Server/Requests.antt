-- ===== src/Server/Requests.antt =====
-- Requests, responses and the payload of a webhook (internal/server/server.go).
use Prim.Native.String.{String}
use mxlrc_go.Common.{ℕ, List, [], ◌∷◌, Option, none, some, text_eq, if◌then◌else◌}
use mxlrc_go.Auth.Text.{trim_space}
use mxlrc_go.Strings.Splitting.{cut, equal_fold}
use mxlrc_go.Store.Tables.{Status}
use mxlrc_go.Models.{Inputs}

pub record LidarrWebhook : Type 0 where
  pub event_type : String
  pub artist_name : String  -- artist.artistName
  pub album_title : String  -- album.title
  pub track : String  -- track.title
  pub tracks : List String  -- the title of each of tracks

-- A field that the URL or the headers lack is empty. `payload` is none where Decode fails, which a
-- body over the limit makes it do.
pub record Request : Type 0 where
  pub method : String
  pub path : String
  pub apikey : String
  pub authorization : String
  pub payload : Option LidarrWebhook

pub data Body : Type 0 where
  plain : String → Body
  health : (status : String) → (database : Option String) → Body
  summary : Option (List (Status × ℕ)) → Body

pub record Response : Type 0 where
  pub status : ℕ
  pub body : Body

abbrev bearer_token : Option (String × String) → String
bearer_token none = ""
bearer_token (some (scheme, token)) = if equal_fold scheme "Bearer" then trim_space token else ""

-- The separator of the Authorization header is a space.
unfoldable pub api_key : Request → String
unfolding trim_space cut equal_fold
api_key r =
    if text_eq (trim_space r.apikey) ""
    then bearer_token (cut 32 (trim_space r.authorization))
    else trim_space r.apikey

pub data InputsError : Type 0 where
  missing_artist missing_tracks missing_track_title : InputsError

pub data Parsed : Type 0 where
  parsed : List Inputs → Parsed
  refused : InputsError → Parsed

abbrev pub tracks_of : LidarrWebhook → List String
tracks_of payload = elim payload.tracks [
  | [] ↦ if text_eq payload.track "" then [] else payload.track ∷ []
  | t ∷ ts ↦ t ∷ ts
]

unfoldable pub input_of : (outdir artist album title : String) → Inputs
input_of outdir artist album title = record {
  track = record {
    track_name = title;
    artist_name = artist;
    album_name = album;
    track_length = 0;
    instrumental = 0;
    has_lyrics = 0;
    has_subtitles = 0;
  };
  outdir = outdir;
  filename = "";
  source_path = "";
  output_paths = record { outdir = outdir; filename = "" } ∷ [];
  scan_result_id = 0;
}

abbrev pub add_input : Inputs → Parsed → Parsed
add_input i (parsed is) = parsed (i ∷ is)
add_input i (refused e) = refused e

module _ (outdir : String) where
  unfoldable pub track_inputs : (artist album : String) → List String → Parsed
  unfolding input_of trim_space
  track_inputs artist album [] = parsed []
  track_inputs artist album (track ∷ tracks) =
      let title = trim_space track in
      let rest =
        add_input (input_of outdir artist album title) (track_inputs artist album tracks) in
      if text_eq title "" then refused missing_track_title else rest

  abbrev pub some_tracks : (artist album : String) → List String → Parsed
  some_tracks artist album [] = refused missing_tracks
  some_tracks artist album (t ∷ ts) = track_inputs artist album (t ∷ ts)

  unfoldable pub inputs : LidarrWebhook → Parsed
  unfolding track_inputs trim_space
  inputs payload =
      let artist = trim_space payload.artist_name in
      let rest = some_tracks artist (trim_space payload.album_title) (tracks_of payload) in
      if text_eq artist "" then refused missing_artist else rest

unfoldable pub error_text : InputsError → String
error_text missing_artist = "missing artist"
error_text missing_tracks = "missing tracks"
error_text missing_track_title = "missing track title"
