-- ===== src/Examples/OtherRuns.antt =====
-- Runs of the backoff, the one-shot app, the API keys and the cache.
use Prim.Native.Nat.{min}
use mxlrc_go.Common.{
  ℕ, ◌≡◌, ◌≤◌, ◌⊎◌, ◌*◌, ◌^◌, String, true, false, [], ◌∷◌, Option, none, some, refl, arith,
  text_eq, if◌then◌else◌,
}
use mxlrc_go.Store.Session.{Session, sql_failure, exec, ok as reply, err as failure}
use mxlrc_go.Backoff.{geometric}
use mxlrc_go.Backoff.Bounds.{geometric-eq-min, geometric_mono}
use mxlrc_go.Queue.Memory.{len}
use mxlrc_go.App.Loop.{Services, fetched, fetch_error, App, run, report}
use mxlrc_go.App.Accounting.{Accounted, settle_all, run-Accounted}
use mxlrc_go.Auth.Scopes.{ok as accepted, err as refusal}
use mxlrc_go.Auth.Sql.{KeyTable}
use mxlrc_go.Auth.Service.{CreatedKey}
use mxlrc_go.Cache.{store, lookup_exact}
use mxlrc_go.Cache.Laws.{store-then-lookup_exact}
use mxlrc_go.Examples.Data.{inputs_of, song_of, mixed}

geometric-eq-min_example : geometric 4 60 3600 ≡ min 3600 (60 * 2 ^ 3)
geometric-eq-min_example =
    geometric-eq-min 4 60 3600 (omega arith) (omega arith) (omega arith) (omega arith)

geometric_mono_example : (geometric 2 60 3600 ≤ geometric 5 60 3600) × (geometric 5 60 3600 ≤ 3600)
geometric_mono_example = geometric_mono 2 5 60 3600 (omega arith) (omega arith) (omega arith)

-- The provider knows one artist; the world counts what has been slept.
abbrev one_shot : Services ℕ
one_shot = record {
  context_ended = λ w. (false, w);
  find_lyrics =
      λ t w. (if text_eq t.artist_name "Abba" then fetched (song_of t) else fetch_error, w);
  write_lrc = λ _ _ _ w. (true, w);
  sleep = λ d w. (true, w);
  create_file = λ w. (true, w);
  write_row = λ _ _ w. (true, w);
  flush = λ w. (true, w);
  close = λ w. (true, w);
}

abbrev app : App ℕ
app = record {
  inputs = record { queue = inputs_of "Nobody" "Nothing" 0 ∷ inputs_of "Abba" "Waterloo" 0 ∷ [] };
  failed = record { queue = [] };
  dir_mode = false;
  cooldown = 2;
  base_backoff = 60;
  max_backoff = 3600;
  failure_count = 0;
  world = 0;
  saved = [];
}

run-Accounted_example :
    Accounted app.inputs.queue app (settle_all one_shot (len app.inputs) app)
    × (run one_shot app ≡ report one_shot (settle_all one_shot (len app.inputs) app))
run-Accounted_example = run-Accounted one_shot app

-- A hash of more than sixteen characters.
abbrev hash_of : String → Option String
hash_of raw = some "0123456789abcdef01"

abbrev no_keys : Session KeyTable
no_keys = record { db = []; faults = [] }

abbrev made : CreatedKey
made = record {
  raw = "mxlrc_00ff";
  key = record {
    id = "0123456789abcdef";
    name = "hook";
    hash = "0123456789abcdef01";
    scopes = "webhook" ∷ [];
    created_at = 5;
    revoked_at = none;
  };
}

store-then-lookup_exact_example :
    let after = (store (λ s. s) "Abba" "Money" "" "la la" 9 mixed).1 in
    ((lookup_exact (λ s. s) "Abba" "Money" "" after).0 ≡ reply "la la")
    ⊎ ((lookup_exact (λ s. s) "Abba" "Money" "" after).0 ≡ failure sql_failure)
unfolding store exec
store-then-lookup_exact_example =
    store-then-lookup_exact (λ s. s) "Abba" "Money" "" "Abba" "Money" "" "la la" 9 mixed refl refl
      refl refl
