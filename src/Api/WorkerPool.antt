-- ===== src/Api/WorkerPool.antt =====
-- `WorkerPool` of internal/api/store.go: jobs that wait in a buffered channel, and the workers that
-- receive them. One call or one turn of a worker's loop is one function; any order of them is a run
-- (Order). A negative queue size, at which `make` panics, is left out.
pub mod Order
mod Tests
use kufi_chain.Prelude.{
  ℕ, zero, suc, ◌+◌, String, Bool, true, false, Option, none, some, List, [], ◌∷◌, ◌++◌, ◌-◌, ◌&&◌,
  if◌then◌else◌, ltb, eqb, length,
}

-- `execute` is the error that `Execute` returns, and `awaited` says whether `Result` is not nil.
pub record Job : Type 0 where
  pub execute : Option String
  pub awaited : Bool

-- `idle` workers stand before their select, `running` are the jobs of the others, `quit` says
-- whether the channel of this name is closed, and `results` are the values sent to a `Result`.
-- `wg.Wait()` returns when there is neither an idle worker nor a running job.
pub record WorkerPool : Type 0 where
  pub size : ℕ
  pub queue_size : ℕ
  pub queue : List Job
  pub idle : ℕ
  pub running : List Job
  pub quit : Bool
  pub results : List (Option String)

-- `Start`
unfoldable pub start : WorkerPool → WorkerPool
start p = record p { idle = p.idle + p.size }

-- `NewWorkerPool`
unfoldable pub new_worker_pool : ℕ → ℕ → WorkerPool
new_worker_pool size queue_size = start (record {
  size = size;
  queue_size = queue_size;
  queue = [];
  idle = 0;
  running = [];
  quit = false;
  results = [];
})

-- Whether a channel without a buffer hands its value to a worker that waits.
unfoldable pub hands_over : WorkerPool → Bool
hands_over p = eqb p.queue_size 0 && ltb 0 p.idle

-- `Submit`: the job is queued where the buffer has room, or handed over; `false` is a full queue.
-- Whether the pool has been stopped is not asked.
unfoldable pub submit : Job → WorkerPool → Bool × WorkerPool
submit job p =
    if hands_over p
    then (true, record p { idle = p.idle - 1; running = job ∷ p.running })
    else if ltb (length p.queue) p.queue_size
    then (true, record p { queue = p.queue ++ job ∷ [] })
    else (false, p)

-- The first branch of a worker's select: one of the workers that wait receives the oldest job.
unfoldable pub receive_from : ℕ → List Job → WorkerPool → Option (Job × WorkerPool)
receive_from zero jobs p = none
receive_from (suc n) [] p = none
receive_from (suc n) (job ∷ jobs) p =
    some (job, record p { queue = jobs; idle = n; running = job ∷ p.running })

unfoldable pub receive : WorkerPool → Option (Job × WorkerPool)
receive p = receive_from p.idle p.queue p

-- The rest of that branch: the job, which stands after `before` in the running ones, has been
-- executed, its result is sent to who waits for it, and the worker is back at its select.
unfoldable pub finish : List Job → Job → List Job → WorkerPool → WorkerPool
finish before job others p = record p {
  idle = p.idle + 1;
  running = before ++ others;
  results = if job.awaited then p.results ++ job.execute ∷ [] else p.results;
}

-- The second branch: a worker that waits returns once `quit` is closed.
unfoldable pub leave : WorkerPool → WorkerPool
leave p = if p.quit then record p { idle = p.idle - 1 } else p

-- `Stop`, up to its `wg.Wait()`
unfoldable pub stop : WorkerPool → WorkerPool
stop p = record p { quit = true }

-- `QueueLength`
unfoldable pub queue_length : WorkerPool → ℕ
queue_length p = length p.queue
