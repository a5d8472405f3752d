-- ===== src/Examples/LyricsRuns.antt =====
-- Runs of the writer, of the configuration and of the key table.
use Prim.Native.String.{String}
use mxlrc_go.Common.{
  Option, ℕ, text_eq, if◌then◌else◌, true, false, refl, none, some, inr, [], ◌∷◌, ◌≡◌,
}
use mxlrc_go.Models.{Song}
use mxlrc_go.Store.Session.{Session}
use mxlrc_go.Store.Triples.{Outcome}
use mxlrc_go.Lyrics.Contents.{Content, content_of, file_name}
use mxlrc_go.Lyrics.Files.{Files}
use mxlrc_go.Lyrics.Writer.{write_lrc}
use mxlrc_go.Lyrics.Atomicity.{Written, Failed, write_lrc-Written}
use mxlrc_go.Config.Numbers.{pos}
use mxlrc_go.Config.Data.{Config, Environment, missing, present}
use mxlrc_go.Config.Loading.{load, read_file, finish, defaults}
use mxlrc_go.Config.Usable.{IsUsable, load-IsUsable}
use mxlrc_go.Commands.Settings.{
  ConfigKey, find_key, all_keys, config_value, set_config_value, value_of,
}
use mxlrc_go.Commands.Assigning.{Shown, others, set-then-get}
use mxlrc_go.Auth.Text.{trim_space}
use mxlrc_go.Auth.Keys.{Key}
use mxlrc_go.Auth.Scopes.{normalize_scopes, collect_scopes}
use mxlrc_go.Auth.Memory
use mxlrc_go.Auth.Memory.{MemoryStore}
use mxlrc_go.Auth.Sql
use mxlrc_go.Auth.Sql.{KeyTable, encode_scopes, decode_scopes}
use mxlrc_go.Auth.ScopeTexts.{normalize-then-decode}
use mxlrc_go.Auth.Refinement.{
  as_row, as_read, as_answered, SameKey, Holds, one_scope, find-revoke-Holds,
}
use mxlrc_go.Strings.Paths.{join_path, ext}
use mxlrc_go.Strings.Splitting.{trim_suffix}
use mxlrc_go.Examples.Data.{track_of, song_of}

abbrev unsynced : Song
unsynced = song_of (track_of "Abba" "Money")

abbrev body : Content
body = record { text = "la la"; write_tags = false }

-- The sidecar of the other format is there, and the third operation fails.
abbrev disk : Session Files
disk = record {
  db = λ p. if text_eq p "/out/money.lrc" then some "old" else none;
  faults = false ∷ false ∷ true ∷ [];
}

abbrev temp_of : String → String → String
temp_of outdir fn = "/out/money.txt.1.tmp"

abbrev same : String → String
same s = s

write_lrc-Written_example :
    Outcome
      (Written "la" body "/out/money.txt.1.tmp" "/out/money.txt" disk.db refl)
      (Failed "la" body "/out/money.txt.1.tmp" "/out/money.txt" disk.db refl)
      (write_lrc same temp_of "la" unsynced "money.lrc" "/out" disk).0
      (write_lrc same temp_of "la" unsynced "money.lrc" "/out" disk).1.db
unfolding content_of file_name join_path ext trim_suffix
write_lrc-Written_example =
    write_lrc-Written same temp_of "la" unsynced "money.lrc" "/out" body disk refl refl

-- A file that blanks the output directory and sets a circuit duration below the minimum.
abbrev blanked : Config → Option Config
blanked cfg = some (record cfg {
  output = record { dir = "" };
  api = record cfg.api { circuit_open_duration = pos 60 };
})

abbrev env : Environment
env = record {
  getenv = λ name. if text_eq name "MXLRC_WORK_INTERVAL" then "20" else "";
  home = some "/home/me";
  stat = λ path. if text_eq path "/etc/mxlrc.toml" then present blanked else missing;
}

abbrev loaded_config : Config
loaded_config = record (defaults env) {
  db = record { path = "/home/me/.local/share/mxlrcgo-svc/mxlrcgo.db" };
  server = record ((defaults env).server) { work_interval_seconds = pos 20 };
  api = record ((defaults env).api) { circuit_open_duration = pos 300 };
}

abbrev no_float : String → Option ℕ
no_float s = none

load-IsUsable_example : IsUsable loaded_config
unfolding load read_file defaults finish
load-IsUsable_example = load-IsUsable no_float env "/etc/mxlrc.toml" loaded_config refl

abbrev float_text : ℕ → String
float_text b = "0.5"

abbrev moved : Config
moved = record loaded_config { db = record { path = "/data/x.db" } }

set-then-get_example :
    (k : ConfigKey) × (find_key "db.path" all_keys ≡ some k)
    × (config_value float_text moved "db.path" ≡ some (value_of float_text moved k))
    × Shown float_text no_float k "/data/x.db" (value_of float_text moved k)
    × (others float_text no_float k moved ≡ others float_text no_float k loaded_config)
unfolding set_config_value
set-then-get_example =
    set-then-get float_text no_float loaded_config moved "db.path" "/data/x.db" refl

normalize-then-decode_example :
    decode_scopes (encode_scopes ("admin" ∷ "webhook" ∷ [])) ≡ "admin" ∷ "webhook" ∷ []
unfolding normalize_scopes collect_scopes trim_space
normalize-then-decode_example =
    normalize-then-decode ("webhook" ∷ " admin" ∷ "webhook" ∷ []) ("admin" ∷ "webhook" ∷ []) refl

abbrev issued : Key
issued = record {
  id = "0123456789abcdef";
  name = "hook";
  hash = "0123456789abcdef01";
  scopes = "webhook" ∷ [];
  created_at = 5;
  revoked_at = none;
}

abbrev in_memory : MemoryStore
in_memory = record { keys = issued ∷ []; context_ended = false }

abbrev in_table : Session KeyTable
in_table = record { db = as_row issued ∷ []; faults = [] }

find-revoke-Holds_example :
    SameKey as_read
      (Memory.find_by_hash "0123456789abcdef01" in_memory).0
      (Sql.find_by_hash "0123456789abcdef01" in_table).0
    × Holds in_memory (Sql.find_by_hash "0123456789abcdef01" in_table).1
    × SameKey
        (as_answered in_memory "0123456789abcdef01" 9)
        (Memory.revoke_by_hash "0123456789abcdef01" 9 in_memory).0
        (Sql.revoke_by_hash "0123456789abcdef01" 9 in_table).0
    × Holds
        (Memory.revoke_by_hash "0123456789abcdef01" 9 in_memory).1
        (Sql.revoke_by_hash "0123456789abcdef01" 9 in_table).1
find-revoke-Holds_example = find-revoke-Holds in_memory "0123456789abcdef01" 9 in_table (record {
  rows = refl;
  running = refl;
  no_faults = refl;
  normal = (one_scope "webhook" (inr refl), tt);
})
