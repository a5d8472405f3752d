-- ===== src/App/Accounting.antt =====
-- Run (internal/app/app.go) and what becomes of its inputs.
use mxlrc_go.App.Loop.{
  report, handle_failed, run, App, Services, Fetched, fetched, fetch_error, timer, backoff_timer,
  save, set_aside, after_fetch, step, loop, drain,
}
use mxlrc_go.Queue.Memory.{len, pop, push, next, empty, front}
use mxlrc_go.Models.{Song, Inputs}
use mxlrc_go.Common.{
  append_assoc, append_nil, true, false, if◌then◌else◌, Bool, sym, ◌==◌, subst, ◌∙◌, ap, ℕ, suc,
  ◌+◌, List, [], ◌∷◌, ◌++◌, ◌≡◌, refl, Bool-cases, inl, inr, length, arith, ◌⊎◌,
}

-- `all` consists of the two lists, each in its order.
pub data Shuffle {A : Type 0} : List A → List A → List A → Type 0 where
  none_left : Shuffle [] [] []
  to_left : {x : A} {xs ys zs : List A} → Shuffle xs ys zs → Shuffle (x ∷ xs) ys (x ∷ zs)
  to_right : {y : A} {xs ys zs : List A} → Shuffle xs ys zs → Shuffle xs (y ∷ ys) (y ∷ zs)

suc-not_zero : (n : ℕ) → (suc n == 0) ≡ false
suc-not_zero n = ground arith

module _ {W : Type 0} where
  -- An app with these inputs left.
  abbrev with_inputs : List Inputs → App W → App W
  with_inputs q a = record a { inputs = record { queue = q } }

  -- From `a` to `b` the items of `q` were saved or failed, each in the order of `q`.
  pub record Accounted (q : List Inputs) (a b : App W) : Type 0 where
    pub new_saved : List Inputs
    pub new_failed : List Inputs
    pub saved : b.saved ≡ a.saved ++ new_saved
    pub failed : b.failed.queue ≡ a.failed.queue ++ new_failed
    pub all : Shuffle new_saved new_failed q
    pub none_left : b.inputs.queue ≡ []

  -- One item was taken, and saved or failed.
  abbrev Took : Inputs → List Inputs → App W → App W → Type 0
  Took x q a b =
      (b.inputs.queue ≡ q)
      × (((b.saved ≡ a.saved ++ x ∷ []) × (b.failed.queue ≡ a.failed.queue))
          ⊎ ((b.saved ≡ a.saved) × (b.failed.queue ≡ a.failed.queue ++ x ∷ [])))

  Took-Accounted :
      (x : Inputs) (q : List Inputs) (a b c : App W)
      → Took x q a b
      → Accounted q b c
      → Accounted (x ∷ q) a c
  Took-Accounted x q a b c (p, inl (e, f)) h = record {
    new_saved = x ∷ h.new_saved;
    new_failed = h.new_failed;
    saved = h.saved ∙ ap (λ s. s ++ h.new_saved) e ∙ append_assoc a.saved (x ∷ []) h.new_saved;
    failed = h.failed ∙ ap (λ s. s ++ h.new_failed) f;
    all = to_left h.all;
    none_left = h.none_left;
  }
  Took-Accounted x q a b c (p, inr (e, f)) h = record {
    new_saved = h.new_saved;
    new_failed = x ∷ h.new_failed;
    saved = h.saved ∙ ap (λ s. s ++ h.new_saved) e;
    failed =
        h.failed
        ∙ ap (λ s. s ++ h.new_failed) f
        ∙ append_assoc a.failed.queue (x ∷ []) h.new_failed;
    all = to_right h.all;
    none_left = h.none_left;
  }

module _ {W : Type 0} (services : Services W) where
  timer-Took :
      (x : Inputs) (q : List Inputs) (a b : App W) → Took x q a b → Took x q a (timer services b)
  unfolding timer
  timer-Took x q a b h = elim (Bool-cases (empty b.inputs)) [ inl e ↦ rw e h | inr e ↦ rw e h ]

  backoff_timer-Took :
      (n : ℕ) (x : Inputs) (q : List Inputs) (a b : App W)
      → Took x q a b
      → Took x q a (backoff_timer services n b)
  unfolding backoff_timer
  backoff_timer-Took n x q a b h = ground (arith, h)

  save-Took :
      (x : Inputs) (q : List Inputs) (a : App W) (song : Song) (n : ℕ) (w : W)
      → Took x q a (
          save services song
            (pop (record { queue = x ∷ q }))
            (record (with_inputs (x ∷ q) a) { failure_count = n; world = w }))
  unfolding save pop push
  save-Took x q a song n w = ground arith

  set_aside-Took :
      (x : Inputs) (q : List Inputs) (a : App W) (n : ℕ) (w : W)
      → Took x q a (
          set_aside services
            (pop (record { queue = x ∷ q }))
            (record (with_inputs (x ∷ q) a) { failure_count = n; world = w }))
  unfolding set_aside pop push
  set_aside-Took x q a n w = (refl, inr (refl, refl))

  step-Took :
      (x : Inputs) (q : List Inputs) (a : App W)
      → Took x q a (step services (front x) (with_inputs (x ∷ q) a))
  unfolding step after_fetch
  step-Took x q a = fetch_Took (services.find_lyrics x.track a.world)
    where
      fetch_Took : (r : Fetched × W) → Took x q a (after_fetch services r (with_inputs (x ∷ q) a))
      fetch_Took (fetched song, w) = timer-Took x q a _ (save-Took x q a song 0 w)
      fetch_Took (fetch_error, w) =
          backoff_timer-Took (a.failure_count + 1) x q a _
            (set_aside-Took x q a (a.failure_count + 1) w)

  -- The items that the loop leaves behind, it leaves to `drain`.
  drain-Accounted :
      (q : List Inputs) (a : App W)
      → Accounted q (with_inputs q a) (drain services (length q) (with_inputs q a))
  unfolding drain empty pop push set_aside
  drain-Accounted [] a = record {
    new_saved = [];
    new_failed = [];
    saved = sym (append_nil a.saved);
    failed = sym (append_nil a.failed.queue);
    all = none_left;
    none_left = refl;
  }
  drain-Accounted (x ∷ q) a =
      let b = record a { failed = push a.failed x } in
      rw (suc-not_zero (length q)) (
        Took-Accounted x q (with_inputs (x ∷ q) a) (with_inputs q b) _ (refl, inr (refl, refl))
          (drain-Accounted q b))

  -- The loop of Run for so many rounds, and the draining loop after it.
  abbrev pub settle_all : ℕ → App W → App W
  settle_all n a = let b = loop services n a in drain services (length b.inputs.queue) b

  pub loop-Accounted :
      (q : List Inputs) (a : App W) → a.inputs.queue ≡ q → Accounted q a (settle_all (length q) a)
  unfolding loop empty next
  loop-Accounted [] a h =
      subst (λ b. Accounted [] b (settle_all 0 b)) (sym (ap (λ r. with_inputs r a) h))
        (drain-Accounted [] a)
  loop-Accounted (x ∷ q) a h =
      subst (λ b. Accounted (x ∷ q) b (settle_all (suc (length q)) b))
        (sym (ap (λ r. with_inputs r a) h))
        (rw (suc-not_zero (length q)) (round (loop-Accounted q) (services.context_ended a.world)))
    where
      round :
          ((b : App W) → b.inputs.queue ≡ q → Accounted q b (settle_all (length q) b))
          → (r : Bool × W)
          → let c = record (with_inputs (x ∷ q) a) { world = r.1 } in
            let b = if r.0 then c else loop services (length q) (step services (front x) c) in
            Accounted (x ∷ q) (with_inputs (x ∷ q) a) (drain services (length b.inputs.queue) b)
      round later (true, w) =
          let h' = drain-Accounted (x ∷ q) (record a { world = w }) in
          record {
            new_saved = h'.new_saved;
            new_failed = h'.new_failed;
            saved = h'.saved;
            failed = h'.failed;
            all = h'.all;
            none_left = h'.none_left;
          }
      round later (false, w) =
          let a' = record a { world = w } in
          let b = step services (front x) (with_inputs (x ∷ q) a') in
          Took-Accounted x q (with_inputs (x ∷ q) a) b _ (step-Took x q a')
            (later b (step-Took x q a').0)

  -- Run accounts for every input once. When its loop has ended, because the inputs ran out or the
  -- context did, and the rest is drained, no input is left, and the inputs are those whose lyrics the
  -- writer accepted together with those on the failed queue, each in the order they had. What Run
  -- returns is what reporting that state returns.
  pub run-Accounted :
      (a : App W)
      → Accounted a.inputs.queue a (settle_all (len a.inputs) a)
        × (run services a ≡ report services (settle_all (len a.inputs) a))
  unfolding run handle_failed len
  run-Accounted a = (loop-Accounted a.inputs.queue a refl, refl)
