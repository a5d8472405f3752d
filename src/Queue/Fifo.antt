-- ===== src/Queue/Fifo.antt =====
-- InputsQueue (internal/queue/queue.go) as a queue.
use mxlrc_go.Common.{
  append_assoc, append_nil, ℕ, zero, suc, ◌≡◌, refl, ap, sym, ◌∙◌, List, [], ◌∷◌, ◌++◌, length,
}
use mxlrc_go.Models.{Inputs}
use mxlrc_go.Queue.Memory.{InputsQueue, Front, queue_is_empty, front, pop, push, len}

-- Push for each item.
pub push_all : InputsQueue → List Inputs → InputsQueue
push_all q [] = q
push_all q (x ∷ xs) = push_all (push q x) xs

-- The items of so many calls of Pop, and the queue after them.
abbrev pub took : Front → List Inputs × InputsQueue → List Inputs × InputsQueue
took queue_is_empty r = r
took (front i) (is, q) = (i ∷ is, q)

pub pop_all : ℕ → InputsQueue → List Inputs × InputsQueue
pop_all zero q = ([], q)
pop_all (suc n) q = let (q', f) = pop q in took f (pop_all n q')

push_all-queue : (q : InputsQueue) (xs : List Inputs) → (push_all q xs).queue ≡ q.queue ++ xs
unfolding push_all push
push_all-queue q [] = sym (append_nil q.queue)
push_all-queue q (x ∷ xs) = push_all-queue (push q x) xs ∙ append_assoc q.queue (x ∷ []) xs

pop_all-queue :
    (xs : List Inputs) → pop_all (length xs) (record { queue = xs }) ≡ (xs, record { queue = [] })
unfolding pop_all pop
pop_all-queue [] = refl
pop_all-queue (x ∷ xs) = ap (took (front x)) (pop_all-queue xs)

-- The items leave in the order in which they came: after a series of calls of Push, as many calls of
-- Pop as Len says return the items that were there and then the pushed ones, in order, and leave the
-- queue empty.
pub push-then-pop :
    (q : InputsQueue) (xs : List Inputs)
    → pop_all (len (push_all q xs)) (push_all q xs) ≡ (q.queue ++ xs, record { queue = [] })
unfolding len
push-then-pop q xs =
    pop_all-queue (push_all q xs).queue
    ∙ ap (λ (r : List Inputs). (r, record { queue = [] })) (push_all-queue q xs)
