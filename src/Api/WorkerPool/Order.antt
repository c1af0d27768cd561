-- ===== src/Api/WorkerPool/Order.antt =====
-- What any order of calls and of turns of the workers makes of a worker pool.
use kufi_chain.Prelude.{
  ℕ, zero, suc, ◌+◌, ◌≤◌, some, List, [], ◌∷◌, ◌++◌, if◌then◌else◌, length, arith, ◌≡◌, refl, sym,
  ap, ◌∙◌, length-append,
}
use mathlib.Core.List.{append_assoc, append-nil}
use kufi_chain.Api.WorkerPool.{
  Job, WorkerPool, hands_over, submit, receive_from, receive, finish, leave, stop,
}

-- The pools that are reached from one, each with the jobs that `Submit` has accepted and with those
-- that workers have received meanwhile, both in order.
pub data Runs (p₀ : WorkerPool) : List Job → List Job → WorkerPool → Type 0 where
  here : Runs p₀ [] [] p₀
  submits :
      (job : Job) {accepted started : List Job} {p : WorkerPool}
      → Runs p₀ accepted started p
      → Runs p₀
          (if (submit job p).0 then accepted ++ job ∷ [] else accepted)
          (if hands_over p then started ++ job ∷ [] else started)
          (submit job p).1
  receives :
      (job : Job) (p' : WorkerPool) {accepted started : List Job} {p : WorkerPool}
      → receive p ≡ some (job, p')
      → Runs p₀ accepted started p
      → Runs p₀ accepted (started ++ job ∷ []) p'
  finishes :
      (before : List Job) (job : Job) (others : List Job) {accepted started : List Job}
      {p : WorkerPool}
      → p.running ≡ before ++ job ∷ others
      → Runs p₀ accepted started p
      → Runs p₀ accepted started (finish before job others p)
  leaves :
      {accepted started : List Job} {p : WorkerPool}
      → Runs p₀ accepted started p
      → Runs p₀ accepted started (leave p)
  stops :
      {accepted started : List Job} {p : WorkerPool}
      → Runs p₀ accepted started p
      → Runs p₀ accepted started (stop p)

-- No more workers are at work than the pool has, and no more jobs wait than the buffer holds.
abbrev pub IsBounded : WorkerPool → Type 0
IsBounded p = (p.idle + length p.running ≤ p.size) × (length p.queue ≤ p.queue_size)

-- What is left of `p₀`, the sizes, and the jobs that were accepted: those that have been started,
-- and behind them those that wait.
abbrev pub Follows : WorkerPool → List Job → List Job → WorkerPool → Type 0
Follows p₀ accepted started p =
    (p.size ≡ p₀.size)
    × (p.queue_size ≡ p₀.queue_size)
    × (p₀.queue ++ accepted ≡ started ++ p.queue)

-- One more job behind those that are accepted stands behind those that wait.
queued :
    (job : Job) (q₀ accepted started q : List Job)
    → q₀ ++ accepted ≡ started ++ q
    → q₀ ++ (accepted ++ job ∷ []) ≡ started ++ (q ++ job ∷ [])
queued job q₀ accepted started q f =
    sym (append_assoc q₀ accepted (job ∷ []))
    ∙ ap (λ js. js ++ job ∷ []) f
    ∙ append_assoc started q (job ∷ [])

-- Where no job waits, it stands behind those that are started.
handed_over :
    (job : Job) (started q : List Job)
    → length q ≤ 0
    → started ++ (q ++ job ∷ []) ≡ (started ++ job ∷ []) ++ q
handed_over job started [] room = sym (append-nil (started ++ job ∷ []))
handed_over job started (j ∷ q) room = ground arith

submit-Follows :
    (p₀ : WorkerPool) (job : Job) (accepted started : List Job) (p : WorkerPool)
    → Follows p₀ accepted started p
    → IsBounded p
    → Follows p₀
        (if (submit job p).0 then accepted ++ job ∷ [] else accepted)
        (if hands_over p then started ++ job ∷ [] else started)
        (submit job p).1
      × IsBounded (submit job p).1
unfolding submit hands_over
submit-Follows p₀ job accepted started p (same, same_queue, f) (b, room) =
    let behind = queued job p₀.queue accepted started p.queue f in
    let handed = handed_over job started p.queue in
    let grown = length-append p.queue (job ∷ []) in ground (arith, behind, handed, grown, room)

-- What a worker that receives takes is the job that waits longest.
receive-taken :
    (n : ℕ) (q : List Job) (p : WorkerPool) (job : Job) (p' : WorkerPool)
    → receive_from n q p ≡ some (job, p')
    → (n ≡ p'.idle + 1)
      × (q ≡ job ∷ p'.queue)
      × (p'.running ≡ job ∷ p.running)
      × (p'.size ≡ p.size)
      × (p'.queue_size ≡ p.queue_size)
unfolding receive_from
receive-taken zero q p job p' e = ground arith
receive-taken (suc n) [] p job p' e = ground arith
receive-taken (suc n) (j ∷ q) p job p' e = ground arith

receive-Follows :
    (p₀ : WorkerPool) (job : Job) (accepted started : List Job) (p p' : WorkerPool)
    → receive p ≡ some (job, p')
    → Follows p₀ accepted started p
    → IsBounded p
    → Follows p₀ accepted (started ++ job ∷ []) p' × IsBounded p'
unfolding receive
receive-Follows p₀ job accepted started p p' e (same, same_queue, f) (b, room) =
    let (idle, waits, runs, size, queue_size) = receive-taken p.idle p.queue p job p' e in
    (
      (
        size ∙ same,
        queue_size ∙ same_queue,
        f ∙ ap (λ q. started ++ q) waits ∙ sym (append_assoc started (job ∷ []) p'.queue),
      ),
      ground (arith, idle, waits, runs, size, queue_size, b, room),
    )

-- The jobs that `Submit` accepts are received in the order in which they were accepted, whatever
-- the order of the calls, of the turns of the workers and of `Stop`: those of a pool that waited
-- at the beginning, and behind them the accepted ones, are at any time those that workers have
-- received, followed by those that wait. Never are more workers at work than the pool has, and
-- never do more jobs wait than the buffer holds.
pub Runs-Follows :
    (p₀ p : WorkerPool) (accepted started : List Job)
    → IsBounded p₀
    → Runs p₀ accepted started p
    → Follows p₀ accepted started p × IsBounded p
unfolding finish leave stop
Runs-Follows p₀ _ _ _ b here = ((refl, refl, append-nil p₀.queue), b)
Runs-Follows p₀ _ _ _ b (submits job {accepted} {started} {p} r) =
    let (f, b') = Runs-Follows p₀ p accepted started b r in
    submit-Follows p₀ job accepted started p f b'
Runs-Follows p₀ _ _ _ b (receives job p' {accepted} {started} {p} e r) =
    let (f, b') = Runs-Follows p₀ p accepted started b r in
    receive-Follows p₀ job accepted started p p' e f b'
Runs-Follows p₀ _ _ _ b (finishes before job others {accepted} {started} {p} e r) =
    let (f, b') = Runs-Follows p₀ p accepted started b r in
    (f, ground (arith, e, b', length-append before (job ∷ others), length-append before others))
Runs-Follows p₀ _ _ _ b (leaves {accepted} {started} {p} r) =
    let (f, b') = Runs-Follows p₀ p accepted started b r in ground (arith, f, b')
Runs-Follows p₀ _ _ _ b (stops {accepted} {started} {p} r) = Runs-Follows p₀ p accepted started b r

-- In a pool that no worker serves any more, as `Stop` leaves it, no job is ever
-- received again, neither one that waits nor one that `Submit` goes on to accept.
pub abandoned :
    (p₀ p : WorkerPool) (accepted started : List Job)
    → p₀.idle ≡ 0
    → p₀.running ≡ []
    → Runs p₀ accepted started p
    → (p.idle ≡ 0) × (p.running ≡ []) × (started ≡ [])
unfolding submit hands_over finish leave stop receive
abandoned p₀ _ _ _ i w here = (i, w, refl)
abandoned p₀ _ _ _ i w (submits job {accepted} {started} {p} r) =
    let before = abandoned p₀ p accepted started i w r in ground (arith, before)
abandoned p₀ _ _ _ i w (receives job p' {accepted} {started} {p} e r) =
    let before = abandoned p₀ p accepted started i w r in
    ground (arith, before, receive-taken p.idle p.queue p job p' e)
abandoned p₀ _ _ _ i w (finishes before job others {accepted} {started} {p} e r) =
    let (idle, runs, none_started) = abandoned p₀ p accepted started i w r in
    let jobs = ap length (sym runs ∙ e) in ground (arith, jobs, length-append before (job ∷ others))
abandoned p₀ _ _ _ i w (leaves {accepted} {started} {p} r) =
    let before = abandoned p₀ p accepted started i w r in ground (arith, before)
abandoned p₀ _ _ _ i w (stops {accepted} {started} {p} r) = abandoned p₀ p accepted started i w r
