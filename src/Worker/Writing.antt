-- ===== src/Worker/Writing.antt =====
-- RunOnce (internal/worker/worker.go): what stands before a completion in its trace.
use mxlrc_go.Common.{ℕ, ◌≡◌, List, [], ◌∷◌}
use mxlrc_go.Models.{OutputPath}
use mxlrc_go.Worker.Engine.{Engine, Act, Event, completed, wrote, Flow, goes_on, returns}

-- The trace does not end in a completion.
abbrev pub IsOpen : List Event → Type 0
IsOpen (completed _ ∷ _) = ⊥
IsOpen _ = Unit

-- The writes of these paths in turn, on top of an earlier trace.
abbrev pub writes : List OutputPath → List Event → List Event
writes [] t = t
writes (p ∷ ps) t = writes ps (wrote p ∷ t)

-- A completion stands on the writes of the paths.
abbrev pub Written : ℕ → List OutputPath → List Event → Type 0
Written id ps t =
    (n : ℕ) (rest : List Event)
    → t ≡ completed n ∷ rest
    → (n ≡ id) × (earlier : List Event) × (rest ≡ writes ps earlier)

module _ {W F : Type 0} where
  -- An early return does not end in a completion.
  abbrev Unsuccessful : {A : Type 0} → Flow A → Engine W F → Type 0
  Unsuccessful (goes_on _) t = Unit
  Unsuccessful (returns _) t = IsOpen t.trace

  abbrev Stumbles : {A : Type 0} → Act W F A → Type 0
  Stumbles m = (s : Engine W F) → Unsuccessful (m s).0 (m s).1

module _ {W F : Type 0} where
  abbrev Wrote : List OutputPath → Engine W F → Flow (Unit {0}) × Engine W F → Type 0
  Wrote ps s (goes_on _, t) = t.trace ≡ writes ps s.trace
  Wrote ps s (returns _, t) = IsOpen t.trace
