-- ===== src/Examples/ServerRuns.antt =====
-- Runs of the HTTP API and of the enqueuer.
use mxlrc_go.Common.{
  Option, ℕ, String, List, All, ◌+◌, ◌*◌, ◌⊎◌, refl, none, some, [], ◌∷◌, arith, ◌≡◌,
}
use mxlrc_go.Auth.Keys.{Key}
use mxlrc_go.Auth.Sql.{KeyTable, key_row, scan_key, sql_store}
use mxlrc_go.Auth.Scopes.{err, revoked_key, store_failure}
use mxlrc_go.Auth.KeyCalls.{KeyCall, creates, lists, perform_calls}
use mxlrc_go.Auth.Revocation.{revoke-then-validate}
use mxlrc_go.Backoff.{second}
use mxlrc_go.Auth.Service.{revoke_key, validate_key}
use mxlrc_go.Server.Requests.{Request, LidarrWebhook}
use mxlrc_go.Server.Handlers.{
  handle_lidarr, handle_payload, handle_event, enqueue_parsed, enqueue_all,
}
use mxlrc_go.Server.Live.{live_handler, live_queue, live_auth}
use mxlrc_go.Server.Queueing.{AllTitles, IsQueued, handle_lidarr-AllQueued}
use mxlrc_go.Queue.Items.{scan_work_item}
use mxlrc_go.Store.Session.{Session, exec, transaction}
use mxlrc_go.Scan.Enqueuer.{enqueue_pending}
use mxlrc_go.Scan.Enqueuer.Draining.{TakenOn, enqueue_pending-TakenOn}
use mxlrc_go.Examples.Data.{key_of, mixed, mixed_db}

abbrev hash_of : String → Option String
hash_of raw = some "0123456789abcdef01"

abbrev hook : Key
hook = record {
  id = "0123456789abcdef";
  name = "hook";
  hash = "0123456789abcdef01";
  scopes = "webhook" ∷ [];
  created_at = 5;
  revoked_at = none;
}

abbrev with_hook : Session KeyTable
with_hook = record { db = key_row hook ∷ []; faults = [] }

abbrev imported : LidarrWebhook
imported = record {
  event_type = "Download";
  artist_name = "Abba ";
  album_title = "Arrival";
  track = "";
  tracks = "Fernando" ∷ " Tiger" ∷ [];
}

abbrev request : Request
request = record {
  method = "POST";
  path = "/api/v1/webhooks/lidarr";
  apikey = "";
  authorization = "bearer mxlrc_00ff";
  payload = some imported;
}

-- A key with another hash is stored in between, and the keys are listed.
abbrev between : List KeyCall
between = creates (record hook { id = "f"; hash = "f" }) ∷ lists ∷ []

revoke-then-validate_example :
    let later =
      perform_calls between (revoke_key sql_store hash_of "mxlrc_00ff" (9 * second) with_hook).1 in
    let answer = (validate_key sql_store hash_of "mxlrc_00ff" "webhook" later).0 in
    (answer ≡ err revoked_key) ⊎ (answer ≡ err store_failure)
unfolding revoke_key sql_store exec scan_key key_row
revoke-then-validate_example =
    revoke-then-validate hash_of "mxlrc_00ff" "webhook" (9 * second) with_hook
      (record (scan_key (key_row hook)) { revoked_at = some (9 * second) }) between refl

handle_lidarr-AllQueued_example :
    let H = live_handler hash_of key_of 9 "/out" in
    AllTitles imported
      (IsQueued key_of imported (handle_lidarr H request (with_hook, mixed)).1.1.db)
unfolding handle_lidarr handle_payload handle_event enqueue_parsed enqueue_all live_handler
    live_queue live_auth sql_store transaction exec scan_work_item scan_key key_row
handle_lidarr-AllQueued_example =
    handle_lidarr-AllQueued hash_of key_of 9 "/out" request imported with_hook mixed refl refl refl

abbrev clock : ℕ → ℕ
clock id = 9 + id

enqueue_pending-TakenOn_example :
    let t = (enqueue_pending key_of 0 clock 1 mixed).1 in
    All (TakenOn 1 mixed_db.scans t.db.links) t.db.scans
unfolding enqueue_pending exec transaction scan_work_item
enqueue_pending-TakenOn_example =
    enqueue_pending-TakenOn key_of 0 clock 1 mixed (omega arith, (omega arith, tt)) refl
