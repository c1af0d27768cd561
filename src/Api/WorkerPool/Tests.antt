-- ===== src/Api/WorkerPool/Tests.antt =====
-- A worker pool with one worker and room for one job.
use kufi_chain.Prelude.{true, false, none, some, [], ◌∷◌, ◌≡◌, refl, arith}
use kufi_chain.Api.WorkerPool.{
  Job, WorkerPool, start, new_worker_pool, hands_over, submit, receive, receive_from, finish, leave,
  stop, queue_length,
}
use kufi_chain.Api.WorkerPool.Order.{
  Runs, here, submits, receives, finishes, leaves, stops, IsBounded, Follows, Runs-Follows,
}

abbrev pool : WorkerPool
pool = new_worker_pool 1 1

abbrev first : Job
first = record { execute = none; awaited = true }

abbrev second : Job
second = record { execute = some "failed"; awaited = false }

-- The pool at work on the first job.
abbrev at_work : WorkerPool
at_work = record {
  size = 1;
  queue_size = 1;
  queue = [];
  idle = 0;
  running = first ∷ [];
  quit = false;
  results = [];
}

receives_first : receive (submit first pool).1 ≡ some (first, at_work)
unfolding receive receive_from submit hands_over new_worker_pool start
receives_first = refl

full : (submit first (submit second at_work).1).0 ≡ false
unfolding submit hands_over
full = refl

answers : (finish [] first [] at_work).results ≡ none ∷ []
unfolding finish
answers = refl

-- The pool is stopped while the second job waits; the worker comes back and may return.
abbrev stopped : WorkerPool
stopped = leave (stop (finish [] first [] (submit second at_work).1))

left_behind : (stopped.idle ≡ 0) × (stopped.running ≡ []) × (queue_length stopped ≡ 1)
unfolding submit hands_over finish leave stop queue_length
left_behind = (refl, refl, refl)

still_accepts : (submit first (record stopped { queue = [] })).0 ≡ true
unfolding submit hands_over finish leave stop
still_accepts = refl

waits : Runs pool (first ∷ []) [] (submit first pool).1
unfolding submit hands_over new_worker_pool start
waits = submits first here

works : Runs pool (first ∷ []) (first ∷ []) at_work
works = receives first at_work receives_first waits

shuts_down : Runs pool (first ∷ second ∷ []) (first ∷ []) stopped
unfolding submit hands_over
shuts_down = leaves (stops (finishes [] first [] refl (submits second works)))

IsBounded-pool : IsBounded pool
unfolding new_worker_pool start
IsBounded-pool = omega arith

Runs-Follows_example : Follows pool (first ∷ second ∷ []) (first ∷ []) stopped × IsBounded stopped
Runs-Follows_example =
    Runs-Follows pool stopped (first ∷ second ∷ []) (first ∷ []) IsBounded-pool shuts_down
