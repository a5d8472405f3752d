-- ===== src/Queue/Memory.antt =====
-- InputsQueue of internal/queue/queue.go: a slice with its front at index 0.
use mxlrc_go.Common.{ℕ, Bool, List, [], ◌∷◌, ◌++◌, ◌==◌, length}
use mxlrc_go.Models.{Inputs}

pub record InputsQueue : Type 0 where
  pub queue : List Inputs

pub data Front : Type 0 where
  queue_is_empty : Front
  front : Inputs → Front

unfoldable pub new_inputs_queue : InputsQueue
new_inputs_queue = record { queue = [] }

unfoldable pub next : InputsQueue → Front
next q = elim q.queue [ [] ↦ queue_is_empty | i ∷ _ ↦ front i ]

unfoldable pub pop : InputsQueue → InputsQueue × Front
pop q = elim q.queue [ [] ↦ (q, queue_is_empty) | i ∷ rest ↦ (record q { queue = rest }, front i) ]

unfoldable pub push : InputsQueue → Inputs → InputsQueue
push q i = record q { queue = q.queue ++ i ∷ [] }

unfoldable pub len : InputsQueue → ℕ
len q = length q.queue

unfoldable pub empty : InputsQueue → Bool
empty q = length q.queue == 0
