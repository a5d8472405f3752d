-- ===== src/Server/Queueing.antt =====
-- What a webhook that is answered 200 has queued (internal/server/server.go, internal/queue/queue.go).
use mxlrc_go.Common.{
  eq_iff, Bool-cases, ◌&&◌, any, ◌≢◌, ap, ◌||◌, sym, text_eq, subst, Option, ℕ, String, Bool, List,
  All, true, refl, none, some, [], ◌∷◌, arith, ◌∙◌, ◌≡◌, inl, inr,
}
use mxlrc_go.Models.{Inputs}
use mxlrc_go.Store.Tables.{WorkRow, Db}
use mxlrc_go.Store.Session
use mxlrc_go.Store.Session.{Session}
use mxlrc_go.Auth.Sql.{KeyTable}
use mxlrc_go.Auth.Keys.{Key}
use mxlrc_go.Auth.Scopes.{
  Error, forbidden_scope, invalid_key, revoked_key, Result, ok, err, scope_webhook,
}
use mxlrc_go.Auth.Text.{trim_space}
use mxlrc_go.Queue.Enqueue
use mxlrc_go.Queue.Items.{WorkItem}
use mxlrc_go.Queue.Laws.Present.{is_for, HasRow, enqueue-HasRow, enqueue-Present}
use mxlrc_go.Server.Requests.{
  add_input, tracks_of, some_tracks, input_of, track_inputs, Request, Parsed, parsed, refused,
  inputs, LidarrWebhook, api_key, Response,
}
use mxlrc_go.Server.Handlers.{
  auth_response, authorized, new_handler, text_response, and_on, enqueue_all, enqueue_parsed,
  handle_event, handle_payload, handle_lidarr,
}
use mxlrc_go.Server.Live.{succeeded, World, live_auth, live_queue, live_handler}

-- The queue has a row, of whatever status, for a title of the payload's artist, both without the
-- blanks around them, normalized.
abbrev pub IsQueued : (String → String) → LidarrWebhook → Db → String → Type 0
IsQueued normalize_key payload db title =
    any
      (λ (r : WorkRow).
        text_eq (normalize_key (trim_space payload.artist_name)) r.artist_key
        && text_eq (normalize_key (trim_space title)) r.title_key)
      db.work
    ≡ true

-- Every title of the list of tracks, or the single track where the list is empty.
abbrev pub AllTitles : LidarrWebhook → (String → Type 0) → Type 0
AllTitles payload P =
    (payload.tracks ≢ [] → All P payload.tracks)
    × (payload.tracks ≡ [] → (payload.track ≢ "") × P payload.track)

module _ (hash_key : String → Option String) (normalize_key : String → String) (now : ℕ)
    (outdir : String) where
  abbrev go_on : List Inputs → World → Response × World
  go_on vs w =
      enqueue_all (live_handler hash_key normalize_key now outdir)
        (live_queue hash_key normalize_key now) vs w

  -- What the loop does after an Enqueue that has ended as `r`.
  abbrev after :
      List Inputs → Session KeyTable → Session.Result WorkItem → Session Db → Response × World
  after vs keys (Session.ok item) s = go_on vs (keys, s)
  after vs keys (Session.err e) s = (text_response 500 "enqueue failed", (keys, s))

  enqueue_one : Inputs → Session Db → Session.Result WorkItem × Session Db
  enqueue_one v s = Enqueue.enqueue normalize_key v Enqueue.priority_webhook now s

  after-go_on :
      (v : Inputs) (vs : List Inputs) (keys : Session KeyTable) (r : Session.Result WorkItem)
      (t : Session Db)
      → and_on
          (live_handler hash_key normalize_key now outdir)
          (live_queue hash_key normalize_key now)
          (text_response 500 "enqueue failed")
          (go_on vs)
          (succeeded hash_key normalize_key now keys (r, t))
        ≡ after vs keys r t
  after-go_on v vs keys (Session.ok item) t = refl
  after-go_on v vs keys (Session.err e) t = refl

  go_on-cons :
      (v : Inputs) (vs : List Inputs) (keys : Session KeyTable) (s : Session Db)
      → go_on (v ∷ vs) (keys, s) ≡ after vs keys (enqueue_one v s).0 (enqueue_one v s).1
  unfolding enqueue_all live_queue live_handler new_handler enqueue_one
  go_on-cons v vs keys s = after-go_on v vs keys (enqueue_one v s).0 (enqueue_one v s).1

  module _ (u : Inputs) where
    abbrev Kept : World → Type 0
    Kept w = HasRow normalize_key u w.1.db

    after-Kept :
        (vs : List Inputs) (keys : Session KeyTable) (r : Session.Result WorkItem) (t : Session Db)
        → Kept (go_on vs (keys, t)).1
        → Kept (keys, t)
        → Kept (after vs keys r t).1
    after-Kept vs keys (Session.ok item) t rest k = rest
    after-Kept vs keys (Session.err e) t rest k = k

    -- The loop takes no row away.
    go_on-Kept :
        (vs : List Inputs) (keys : Session KeyTable) (s : Session Db)
        → Kept (keys, s)
        → Kept (go_on vs (keys, s)).1
    unfolding enqueue_all enqueue_one
    go_on-Kept [] keys s h = h
    go_on-Kept (v ∷ vs) keys s h =
        let t = (enqueue_one v s).1 in
        let k = enqueue-HasRow normalize_key v Enqueue.priority_webhook now u s h in
        subst (λ (p : Response × World). Kept p.1) (sym (go_on-cons v vs keys s))
          (after-Kept vs keys (enqueue_one v s).0 t (go_on-Kept vs keys t k) k)

  abbrev AllQueued : List Inputs → World → Type 0
  AllQueued vs w = All (λ v. HasRow normalize_key v w.1.db) vs

  after-AllQueued :
      (v : Inputs) (vs : List Inputs) (keys : Session KeyTable) (r : Session.Result WorkItem)
      (t : Session Db)
      → ((item : WorkItem) → r ≡ Session.ok item → HasRow normalize_key v t.db)
      → ((go_on vs (keys, t)).0.status ≡ 200 → AllQueued vs (go_on vs (keys, t)).1)
      → (after vs keys r t).0.status ≡ 200
      → AllQueued (v ∷ vs) (after vs keys r t).1
  after-AllQueued v vs keys (Session.ok item) t made rest h =
      (go_on-Kept v vs keys t (made item refl), rest h)
  after-AllQueued v vs keys (Session.err e) t made rest h = absurd (omega arith)

  go_on-AllQueued :
      (vs : List Inputs) (keys : Session KeyTable) (s : Session Db)
      → (go_on vs (keys, s)).0.status ≡ 200
      → AllQueued vs (go_on vs (keys, s)).1
  unfolding enqueue_one
  go_on-AllQueued [] keys s h = tt
  go_on-AllQueued (v ∷ vs) keys s h =
      let t = (enqueue_one v s).1 in
      let e = go_on-cons v vs keys s in
      subst (λ (p : Response × World). AllQueued (v ∷ vs) p.1) (sym e)
        (after-AllQueued v vs keys (enqueue_one v s).0 t
          (λ item k. enqueue-Present normalize_key v Enqueue.priority_webhook now item s k)
          (go_on-AllQueued vs keys t) (subst (λ (p : Response × World). p.0.status ≡ 200) e h))

  abbrev is_import : String → Bool
  is_import event = text_eq event "Download" || text_eq event "TrackRetag"

  enqueue_parsed-AllQueued :
      (vs : Parsed) (keys : Session KeyTable) (s : Session Db)
      → let H = live_handler hash_key normalize_key now outdir in
        let q = live_queue hash_key normalize_key now in
        (enqueue_parsed H q vs (keys, s)).0.status ≡ 200
        → (is : List Inputs) × (vs ≡ parsed is) × AllQueued is (enqueue_parsed H q vs (keys, s)).1
  unfolding enqueue_parsed
  enqueue_parsed-AllQueued (refused e) keys s h = absurd (omega arith)
  enqueue_parsed-AllQueued (parsed is) keys s h = (is, refl, go_on-AllQueued is keys s h)

  handle_event-import :
      (payload : LidarrWebhook) (w : World)
      → is_import (trim_space payload.event_type) ≡ true
      → let H = live_handler hash_key normalize_key now outdir in
        let q = live_queue hash_key normalize_key now in
        handle_event H q payload w ≡ enqueue_parsed H q (inputs outdir payload) w
  unfolding handle_event live_handler new_handler
  handle_event-import payload w import = rw import refl

  handle_payload-AllQueued :
      (payload : LidarrWebhook) (o : Option LidarrWebhook) (keys : Session KeyTable)
      (s : Session Db)
      → o ≡ some payload
      → is_import (trim_space payload.event_type) ≡ true
      → let H = live_handler hash_key normalize_key now outdir in
        let q = live_queue hash_key normalize_key now in
        (handle_payload H q o (keys, s)).0.status ≡ 200
        → (is : List Inputs) × (inputs outdir payload ≡ parsed is)
          × AllQueued is (handle_payload H q o (keys, s)).1
  unfolding handle_payload
  handle_payload-AllQueued payload none keys s given import h = absurd (cc)
  handle_payload-AllQueued payload (some p) keys s given import h =
      let H = live_handler hash_key normalize_key now outdir in
      let q = live_queue hash_key normalize_key now in
      let same : p ≡ payload = ground arith in
      let e : handle_event H q p (keys, s) ≡ enqueue_parsed H q (inputs outdir payload) (keys, s) =
        ap (λ x. handle_event H q x (keys, s)) same
        ∙ handle_event-import payload (keys, s) import in
      let (is, parsed_to, queued) =
        enqueue_parsed-AllQueued (inputs outdir payload) keys s
          (subst (λ (x : Response × World). x.0.status ≡ 200) e h) in
      (is, parsed_to, subst (λ (x : Response × World). AllQueued is x.1) (sym e) queued)

  refused_status : (e : Error) → (auth_response e).status ≢ 200
  unfolding auth_response
  refused_status forbidden_scope h = absurd (omega arith)
  refused_status invalid_key h = absurd (omega arith)
  refused_status revoked_key h = absurd (omega arith)
  refused_status e h = absurd (omega arith)

  authorized-AllQueued :
      (next : World → Response × World) (v : Result Key × World) (P : Response × World → Type 0)
      → ((keys : Session KeyTable) (s : Session Db)
          → (next (keys, s)).0.status ≡ 200
          → P (next (keys, s)))
      → (authorized (live_handler hash_key normalize_key now outdir) next v).0.status ≡ 200
      → P (authorized (live_handler hash_key normalize_key now outdir) next v)
  authorized-AllQueued next (ok key, (keys, s)) P k h = k keys s h
  authorized-AllQueued next (err e, (keys, s)) P k h = absurd (refused_status e h)

  add_input-eq-parsed :
      (v : Inputs) (p : Parsed) (is : List Inputs)
      → add_input v p ≡ parsed is
      → (js : List Inputs) × (is ≡ v ∷ js) × (p ≡ parsed js)
  add_input-eq-parsed v (parsed js) is e = (js, ground arith, refl)
  add_input-eq-parsed v (refused x) is e = absurd (cc)

  track_inputs-IsQueued :
      (payload : LidarrWebhook) (db : Db) (album : String) (titles : List String) (is : List Inputs)
      → track_inputs outdir (trim_space payload.artist_name) album titles ≡ parsed is
      → All (λ v. HasRow normalize_key v db) is
      → All (IsQueued normalize_key payload db) titles
  unfolding track_inputs input_of is_for
  track_inputs-IsQueued payload db album [] is e h = tt
  track_inputs-IsQueued payload db album (t ∷ ts) is e h =
      elim (Bool-cases (text_eq (trim_space t) "")) [
        | inl blank ↦ absurd (ground arith)
        | inr titled ↦
            let artist = trim_space payload.artist_name in
            let first = input_of outdir artist album (trim_space t) in
            let (js, is_all, rest) =
              add_input-eq-parsed first (track_inputs outdir artist album ts) is (ground arith) in
            let (here, later) = subst (All (λ v. HasRow normalize_key v db)) is_all h in
            (here, track_inputs-IsQueued payload db album ts js rest later)
      ]

  -- The titles that the list of tracks `ts` gives.
  abbrev titles : LidarrWebhook → List String → List String
  titles payload ts = tracks_of (record payload { tracks = ts })

  titles-AllTitles :
      (payload : LidarrWebhook) (P : String → Type 0) (ts : List String)
      → payload.tracks ≡ ts
      → titles payload ts ≢ []
      → All P (titles payload ts)
      → AllTitles payload P
  titles-AllTitles payload P [] e n h = elim (Bool-cases (text_eq payload.track "")) [
    | inl blank ↦ absurd (n (ground arith))
    | inr given ↦ (
      λ listed. absurd (listed e),
      λ empty.
          let single : titles payload [] ≡ payload.track ∷ [] = ground arith in
          (
            λ same. absurd (ground (arith, (eq_iff payload.track "").1 same)),
            (subst (All P) single h).0,
          ),
    )
  ]
  titles-AllTitles payload P (t ∷ ts) e n h =
      (λ listed. subst (All P) (sym e) h, λ empty. absurd (cc))

  some_tracks-eq-parsed :
      (artist album : String) (ts : List String) (is : List Inputs)
      → some_tracks outdir artist album ts ≡ parsed is
      → (ts ≢ []) × (track_inputs outdir artist album ts ≡ parsed is)
  some_tracks-eq-parsed artist album [] is e = absurd (cc)
  some_tracks-eq-parsed artist album (t ∷ ts) is e = (λ k. cc, e)

  inputs-IsQueued :
      (payload : LidarrWebhook) (db : Db) (is : List Inputs)
      → inputs outdir payload ≡ parsed is
      → All (λ v. HasRow normalize_key v db) is
      → AllTitles payload (IsQueued normalize_key payload db)
  unfolding inputs
  inputs-IsQueued payload db is e h =
      let artist = trim_space payload.artist_name in
      let album = trim_space payload.album_title in
      let ts = tracks_of payload in
      elim (Bool-cases (text_eq artist "")) [
        | inl blank ↦ absurd (ground arith)
        | inr named ↦
            let (some_title, e') = some_tracks-eq-parsed artist album ts is (ground arith) in
            titles-AllTitles payload (IsQueued normalize_key payload db) payload.tracks refl
              some_title (track_inputs-IsQueued payload db album ts is e' h)
      ]

  -- When the webhook answers 200 to a payload whose event is Download or TrackRetag, the work queue has
  -- a row for the payload's artist and each title of its list of tracks, or, where that list is empty,
  -- its single track, which is then not empty; the row may have been there before, with any status.
  pub handle_lidarr-AllQueued :
      (r : Request) (payload : LidarrWebhook) (keys : Session KeyTable) (s : Session Db)
      → r.payload ≡ some payload
      → is_import (trim_space payload.event_type) ≡ true
      → let H = live_handler hash_key normalize_key now outdir in
        (handle_lidarr H r (keys, s)).0.status ≡ 200
        → AllTitles payload (IsQueued normalize_key payload (handle_lidarr H r (keys, s)).1.1.db)
  unfolding handle_lidarr live_handler new_handler
  handle_lidarr-AllQueued r payload keys s given import h =
      let H = live_handler hash_key normalize_key now outdir in
      let q = live_queue hash_key normalize_key now in
      let (is, parsed_to, queued) =
        authorized-AllQueued (handle_payload H q r.payload)
          (live_auth hash_key normalize_key now (api_key r) scope_webhook (keys, s))
          (λ p.
            (is : List Inputs) × (inputs outdir payload ≡ parsed is)
            × All (λ v. HasRow normalize_key v p.1.1.db) is)
          (λ keys' s' k. handle_payload-AllQueued payload r.payload keys' s' given import k) h in
      inputs-IsQueued payload (handle_lidarr H r (keys, s)).1.1.db is parsed_to queued
