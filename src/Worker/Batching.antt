-- ===== src/Worker/Batching.antt =====
-- What completeLoop does with the jobs that are handed to it, and flush with a batch.
use job_scheduling.Base.{
  ℕ, ◌≤◌, ◌<◌, ◌≡◌, refl, ap, ◌∙◌, List, [], ◌∷◌, ◌++◌, length, leb, arith, All, Bool-cases, inl,
  inr, length-append, append_assoc,
}
use job_scheduling.Worker.Run.{Finished}
use job_scheduling.Worker.Complete.{Signal, got, tick, complete_loop}

unfoldable pub concat : List (List Finished) → List Finished
concat [] = []
concat (x ∷ xs) = x ++ concat xs

-- The jobs that were handed over, in order.
unfoldable pub received : List Signal → List Finished
received [] = []
received (tick ∷ ss) = received ss
received (got f ∷ ss) = f ∷ received ss

-- completeLoop flushes every job that it is handed exactly once, in the order they came in, the ones
-- left over at the end of the channel included; and where the batch size is positive no batch is
-- larger than it.
pub batches_are_complete :
    (most : ℕ) (buf : List Finished) (ss : List Signal)
    → length buf < most
    → (concat (complete_loop most buf ss) ≡ buf ++ received ss)
      × All (λ b. length b ≤ most) (complete_loop most buf ss)
unfolding complete_loop concat received
batches_are_complete most buf [] h = (refl, (omega arith, tt))
batches_are_complete most buf (tick ∷ ss) h =
    let (rest, small) = batches_are_complete most [] ss (omega arith) in
    (ap (λ l. buf ++ l) rest, (omega arith, small))
batches_are_complete most buf (got f ∷ ss) h =
    let buf' = buf ++ f ∷ [] in
    let size = length-append buf (f ∷ []) in
    let (rest, small) = batches_are_complete most [] ss (omega arith) in
    let all : buf' ++ received ss ≡ buf ++ f ∷ received ss =
      append_assoc buf (f ∷ []) (received ss) in
    elim (Bool-cases (leb most (length buf'))) [
      | inl full ↦ rw full (ap (λ l. buf' ++ l) rest ∙ all, (omega (arith, size), small))
      | inr room ↦
          let (later, fits) = batches_are_complete most buf' ss (ground arith) in
          rw room (later ∙ all, fits)
    ]
