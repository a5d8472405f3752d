-- ===== src/Examples/ToolRuns.antt =====
-- Runs of the commands, the scanner, the providers, the client and the comparison of texts.
use Prim.Native.String.{String}
use mxlrc_go.Common.{
  not, ℕ, Bool, List, Option, ◌≤◌, ◌<◌, ◌≢◌, All, In, ◌==◌, true, false, refl, none, some, [], ◌∷◌,
  ◌≡◌,
}
use mxlrc_go.Models.{Track, ScanResult}
use mxlrc_go.Auth.Sql.{KeyTable, KeyRow}
use mxlrc_go.Config.Numbers.{pos}
use mxlrc_go.Store.Tables.{Db, Status}
use mxlrc_go.Store.Session.{Session}
use mxlrc_go.Commands.Libraries.{resolve_library}
use mxlrc_go.Commands.Maintenance.{run_scan_clear}
use mxlrc_go.Commands.Confirmed.{AllOrNothing, run_scan_clear-AllOrNothing}
use mxlrc_go.Commands.ServeKeys.{Extends, key_service, key_service-Extends}
use mxlrc_go.Providers.{
  NamedProvider, normalize_name, provider_disabled, primary_name, select_provider, first_candidate,
}
use mxlrc_go.Providers.Choice.{select-selected}
use mxlrc_go.Verification.{similarity, token_set}
use mxlrc_go.Verification.Scores.{similarity-bounds}
use mxlrc_go.Musixmatch.{
  Message, response, message, node, missing_node, find_lyrics, read_message, song_of_track,
  song_with,
}
use mxlrc_go.Musixmatch.Answers.{IsBacked, find_lyrics-found}
use mxlrc_go.Scanner.Walking.{
  Disk, ScanOptions, scan_library, scan_dir, scan_entries, entry_before, scan_file, is_eligible,
  extension, stem, found_file,
}
use mxlrc_go.Scanner.Found.{IsFound}
use mxlrc_go.Scanner.Eligibility.{scan_library-IsFound}
use mxlrc_go.Examples.Data.{mixed, track_of}

-- The driver refuses the sixth statement.
abbrev shaky : Session Db
shaky = record mixed { faults = false ∷ false ∷ false ∷ false ∷ false ∷ true ∷ [] }

run_scan_clear-AllOrNothing_example :
    AllOrNothing
      (resolve_library "Music" shaky).0
      (run_scan_clear "Music" true 9 shaky).0
      shaky.db
      (run_scan_clear "Music" true 9 shaky).1.db
run_scan_clear-AllOrNothing_example = run_scan_clear-AllOrNothing "Music" 9 shaky

abbrev revoked_row : KeyRow
revoked_row = record {
  id = "0123456789abcdef";
  name = "hook";
  hash = "0123456789abcdef01";
  scopes = "webhook";
  created_at = 5;
  revoked_at = some 7;
}

abbrev hash_of : String → Option String
hash_of raw = some "0123456789abcdef01"

abbrev number : ℕ → String
number n = "1"

abbrev key_table : Session KeyTable
key_table = record { db = revoked_row ∷ []; faults = [] }

key_service-Extends_example :
    Extends key_table.db (key_service number hash_of 9 (" mxlrc_00ff" ∷ "" ∷ []) key_table).1.db
key_service-Extends_example =
    key_service-Extends number hash_of 9 (" mxlrc_00ff" ∷ "" ∷ []) key_table

abbrev provider : NamedProvider ℕ
provider = record { name = "musixmatch"; fetcher = 7 }

select-selected_example :
    In (some provider) (none ∷ some provider ∷ [])
    × (normalize_name provider.name ≡ primary_name " Musixmatch")
    × (provider_disabled (primary_name " Musixmatch") ("other" ∷ []) ≡ false)
unfolding select_provider first_candidate normalize_name provider_disabled
select-selected_example =
    select-selected " Musixmatch" ("other" ∷ []) (none ∷ some provider ∷ []) provider refl

abbrev is_letter : ℕ → Bool
is_letter c = not (c == 32)

abbrev same_key : String → String
same_key s = s

similarity-bounds_example :
    let score = similarity is_letter same_key "la la money" "money money" in
    let heard = token_set is_letter same_key "la la money" in
    let sung_tokens = token_set is_letter same_key "money money" in
    (0 < score.total)
    × (score.matches ≤ score.total)
    × (heard ≢ [] → All (λ t. In t sung_tokens) heard → score.matches ≡ score.total)
    × (All (λ t. ¬ In t sung_tokens) heard → score.matches ≡ 0)
similarity-bounds_example = similarity-bounds is_letter same_key "la la money" "money money"

abbrev sung : Track
sung = record (track_of "Abba" "Money") { has_lyrics = 1 }

abbrev answer : Message
answer = record {
  status_code = 200;
  hint = "";
  matcher_status = 200;
  track = node sung;
  subtitles = missing_node;
  restricted = 0;
  lyrics = node (record { lyrics_body = "la la" });
}

find_lyrics-found_example :
    (m : Message) × (response 200 (message answer) ≡ response 200 (message m))
    × (m.matcher_status ≡ 200)
    × IsBacked m (song_with sung [] "la la")
unfolding find_lyrics read_message song_of_track
find_lyrics-found_example =
    find_lyrics-found (response 200 (message answer)) (song_with sung [] "la la") refl

-- A directory that contains itself, and one song without lyrics.
abbrev looped : Disk
looped = record {
  read_dir = λ dir.
      some
        (record { name = "a.mp3"; is_dir = false } ∷ record { name = "again"; is_dir = true } ∷ []);
  exists = λ path. false;
  read_tags = λ path. some ("Abba", "Money");
  context_ended = λ path. false;
}

abbrev options : ScanOptions
options = record { update = false; upgrade = false; max_depth = pos 1; bfs = false }

abbrev both : List (ScanResult Status)
both =
    found_file "/music/again" "a.mp3" ("Abba", "Money")
    ∷ found_file "/music" "a.mp3" ("Abba", "Money")
    ∷ []

scan_library-IsFound_example : All (IsFound looped options 1 "/music") both
unfolding scan_library scan_dir scan_entries entry_before scan_file is_eligible extension stem
    found_file
scan_library-IsFound_example = scan_library-IsFound looped options "/music" both refl
