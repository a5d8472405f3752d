-- ===== src/Server/Handlers.antt =====
-- The handlers (internal/server/server.go) over the services that a Handler has, each of which may be
-- nil. Logging has no counterpart.
use mxlrc_go.Common.{
  ℕ, Bool, ◌||◌, String, List, [], ◌∷◌, Option, none, some, text_eq, if◌then◌else◌, true, false,
}
use mxlrc_go.Models.{Inputs}
use mxlrc_go.Auth.Keys.{Key}
use mxlrc_go.Auth.Scopes.{
  Error, forbidden_scope, invalid_key, revoked_key, Result, ok, err, scope_admin, scope_webhook,
}
use mxlrc_go.Auth.Text.{trim_space}
use mxlrc_go.Store.Tables.{Status}
use mxlrc_go.Queue.Enqueue.{priority_webhook}
use mxlrc_go.Server.Requests.{
  Request, Response, plain, health, summary, api_key, Parsed, parsed, refused, inputs, error_text,
  LidarrWebhook,
}

-- The interface WorkQueue over a state W: whether Enqueue accepts, and the rows that Cleanup removes.
pub record WorkQueue (W : Type 0) : Type 0 where
  pub enqueue : Inputs → ℕ → W → Bool × W
  pub cleanup : Inputs → W → Option ℕ × W

pub record Handler (W : Type 0) : Type 0 where
  pub auth : Option (String → String → W → Result Key × W)
  pub queue : Option (WorkQueue W)
  pub outdir : String
  pub priority : ℕ
  pub ready : Option (W → Bool × W)
  pub stats : Option (W → Option (List (Status × ℕ)) × W)

-- An option of NewHandler.
pub data HandlerOption (W : Type 0) : Type 0 where
  with_readiness : (W → Bool × W) → HandlerOption W
  with_status_reporter : (W → Option (List (Status × ℕ)) × W) → HandlerOption W

module _ {W : Type 0} where
  abbrev apply : Handler W → HandlerOption W → Handler W
  apply h (with_readiness r) = record h { ready = some r }
  apply h (with_status_reporter s) = record h { stats = some s }

  apply_all : Handler W → List (HandlerOption W) → Handler W
  apply_all h [] = h
  apply_all h (o ∷ os) = apply_all (apply h o) os

  unfoldable pub new_handler :
      Option (String → String → W → Result Key × W)
      → Option (WorkQueue W)
      → String
      → List (HandlerOption W)
      → Handler W
  unfolding apply_all
  new_handler a q outdir opts =
      apply_all
        (record {
          auth = a;
          queue = q;
          outdir = outdir;
          priority = priority_webhook;
          ready = none;
          stats = none;
        })
        opts

abbrev pub text_response : ℕ → String → Response
text_response status text = record { status = status; body = plain text }

-- The switch on the error of ValidateKey.
unfoldable pub auth_response : Error → Response
auth_response forbidden_scope = text_response 403 "Forbidden"
auth_response invalid_key = text_response 401 "Unauthorized"
auth_response revoked_key = text_response 401 "Unauthorized"
auth_response e = text_response 500 "Internal Server Error"

abbrev pub accepted : Response
accepted = text_response 200 "ok\n"

unfoldable pub handle_healthz : {W : Type 0} → W → Response × W
handle_healthz w = (record { status = 200; body = health "ok" none }, w)

module _ {W : Type 0} (h : Handler W) where
  abbrev pinged : Bool × W → Response × W
  pinged (ok?, w) = (
    if ok?
        then record { status = 200; body = health "ready" (some "ok") }
        else record { status = 503; body = health "unavailable" (some "error") },
    w,
  )

  unfoldable pub handle_readyz : W → Response × W
  handle_readyz w = elim h.ready [
    | none ↦ (record { status = 200; body = health "ready" none }, w)
    | some ping ↦ pinged (ping w)
  ]

  abbrev counted : Option (List (Status × ℕ)) × W → Response × W
  counted (none, w) = (text_response 500 "status unavailable", w)
  counted (some counts, w) = (record { status = 200; body = summary (some counts) }, w)

  unfoldable pub queue_summary : Option (W → Option (List (Status × ℕ)) × W) → W → Response × W
  queue_summary none w = (record { status = 200; body = summary none }, w)
  queue_summary (some count) w = counted (count w)

  -- What follows the check of the key.
  abbrev pub authorized : (W → Response × W) → Result Key × W → Response × W
  authorized next (err e, w) = (auth_response e, w)
  authorized next (ok _, w) = next w

  unfoldable pub handle_status : Request → W → Response × W
  unfolding queue_summary auth_response api_key
  handle_status r w = elim h.auth [
    | none ↦ (text_response 500 "auth unavailable", w)
    | some validate ↦ authorized (queue_summary h.stats) (validate (api_key r) scope_admin w)
  ]

  module _ (q : WorkQueue W) where
    abbrev pub and_on : Response → (W → Response × W) → Bool × W → Response × W
    and_on refusal next (accepted?, w) = elim accepted? [ false ↦ (refusal, w) | true ↦ next w ]

    unfoldable pub enqueue_all : List Inputs → W → Response × W
    enqueue_all [] w = (accepted, w)
    enqueue_all (v ∷ vs) w =
        and_on (text_response 500 "enqueue failed") (enqueue_all vs) (q.enqueue v h.priority w)

    abbrev and_clean : (W → Response × W) → Option ℕ × W → Response × W
    and_clean next (none, w) = (text_response 500 "cleanup failed", w)
    and_clean next (some n, w) = next w

    unfoldable pub cleanup_all : List Inputs → W → Response × W
    cleanup_all [] w = (accepted, w)
    cleanup_all (v ∷ vs) w = and_clean (cleanup_all vs) (q.cleanup v w)

    unfoldable pub enqueue_parsed : Parsed → W → Response × W
    unfolding enqueue_all error_text
    enqueue_parsed (refused e) w = (text_response 400 (error_text e), w)
    enqueue_parsed (parsed vs) w = enqueue_all vs w

    unfoldable pub cleanup_parsed : Parsed → W → Response × W
    unfolding cleanup_all
    cleanup_parsed (refused e) w = (accepted, w)
    cleanup_parsed (parsed vs) w = cleanup_all vs w

    -- The switch on the event.
    unfoldable pub handle_event : LidarrWebhook → W → Response × W
    unfolding enqueue_parsed cleanup_parsed inputs trim_space
    handle_event payload w =
        let event = trim_space payload.event_type in
        let vs = inputs h.outdir payload in
        let enqueued = enqueue_parsed vs w in
        let cleaned = cleanup_parsed vs w in
        if text_eq event "Download" || text_eq event "TrackRetag"
        then enqueued
        else if text_eq event "Grab" || text_eq event "Rename"
        then (accepted, w)
        else if text_eq event "Delete"
        then cleaned
        else (text_response 400 "unsupported lidarr event", w)

    unfoldable pub handle_payload : Option LidarrWebhook → W → Response × W
    unfolding handle_event
    handle_payload none w = (text_response 400 "invalid lidarr webhook payload", w)
    handle_payload (some payload) w = handle_event payload w

  unfoldable pub handle_lidarr : Request → W → Response × W
  unfolding handle_payload auth_response api_key
  handle_lidarr r w = elim h.auth [
    | none ↦ (text_response 500 "auth unavailable", w)
    | some validate ↦ elim h.queue [
      | none ↦ (text_response 500 "queue unavailable", w)
      | some q ↦ authorized (handle_payload q r.payload) (validate (api_key r) scope_webhook w)
    ]
  ]

  -- The patterns of the ServeMux; a pattern for GET serves HEAD too.
  unfoldable pub serve_http : Request → W → Response × W
  unfolding handle_lidarr handle_readyz handle_status handle_healthz
  serve_http r w =
      let get = text_eq r.method "GET" || text_eq r.method "HEAD" in
      let not_allowed : Response × W = (text_response 405 "Method Not Allowed", w) in
      let lidarr = handle_lidarr r w in
      let healthz = handle_healthz w in
      let readyz = handle_readyz w in
      let status = handle_status r w in
      if text_eq r.path "/api/v1/webhooks/lidarr"
      then if text_eq r.method "POST" then lidarr else not_allowed
      else if text_eq r.path "/healthz"
      then if get then healthz else not_allowed
      else if text_eq r.path "/readyz"
      then if get then readyz else not_allowed
      else if text_eq r.path "/api/v1/status"
      then if get then status else not_allowed
      else (text_response 404 "404 page not found", w)
