-- ===== src/Cmd/Clusters/Stopping.antt =====
-- The goroutines of `RunCreate` (cmd/cluster/cluster.go) end, whatever the scheduler chooses.
use azk.Base.{ℕ, zero, suc, ◌+◌, ◌*◌, ◌≤◌, ◌<◌, Bool, ◌≡◌, refl, arith, Bool-cases, inl, inr}
use azk.Api.{Result, ok, err}
use azk.World.{Env, Log, Exit, returned, failed, panicked, pure, ◌>>=◌}
use azk.World.Ends.{AlwaysReturns, DidReturn}
use azk.Cmd.Polling.{shows}
use azk.Cmd.Clusters.Workers.{
  Job, Worker, writing, creating, looking, sleeping, stopped, Turn, first, second, nobody, turn,
  worker_step, run_both, work, after_create, after_look,
}

-- The two calls of a job end without a panic; their errors are part of their answers.
pub record Answering {A : Type 0} (job : Job A) : Type 0 where
  pub created : AlwaysReturns job.create
  pub fetched : AlwaysReturns job.fetch

module _ {A : Type 0} (job : Job A) where
  abbrev pub Advanced : Worker A → Exit (Worker A) × Log → Type 0
  Advanced w (returned v, after) = work job v < work job w
  Advanced w (failed e, after) = ⊥
  Advanced w (panicked, after) = ⊥

  after_create-work : (made : Result A) → work job (after_create job made) < 2 * job.rounds + 2
  after_create-work (ok a) = omega arith
  after_create-work (err e) = omega arith

  after_look-work :
      (rounds : ℕ) (before : A) (got : Result A)
      → work job (after_look job rounds before got) < 2 * suc rounds + 1
  after_look-work rounds before got = elim (Bool-cases (shows job.reached got)) [
    | inl now ↦ ground arith
    | inr not_now ↦ ground arith
  ]

  Advanced-after :
      (w : Worker A) (f : Result A → Worker A) (ended : Exit (Result A) × Log)
      → ((got : Result A) → work job (f got) < work job w)
      → DidReturn ended.0
      → Advanced w (((λ (log : Log). ended) >>= λ got. pure (f got)) ended.1)
  Advanced-after w f (returned got, log) less h = less got
  Advanced-after w f (failed e, log) less h = h
  Advanced-after w f (panicked, log) less h = h

  -- A goroutine that has not stopped has less work left after its next step.
  worker_step-Advanced :
      (env : Env) (w : Worker A) (log : Log)
      → Answering job
      → 0 < work job w
      → Advanced w (worker_step job env w log)
  unfolding worker_step
  worker_step-Advanced env writing log calls more = ground arith
  worker_step-Advanced env creating log calls more =
      Advanced-after creating (after_create job) (job.create log) after_create-work
        (calls.created.at log)
  worker_step-Advanced env (looking zero last) log calls more = ground arith
  worker_step-Advanced env (looking (suc rounds) last) log calls more =
      Advanced-after (looking (suc rounds) last) (after_look job rounds last) (job.fetch log)
        (after_look-work rounds last) (calls.fetched.at log)
  worker_step-Advanced env (sleeping rounds last) log calls more = omega arith
  worker_step-Advanced env (stopped e) log calls more = absurd (omega arith)

abbrev pub BothStopped : {A B : Type 0} → Exit (Worker A × Worker B) × Log → Type 0
BothStopped (returned (stopped _, stopped _), after) = Unit
BothStopped _ = ⊥

module _ {A B : Type 0} (env : Env) (job : Job A) (other : Job B) (calls : Answering job)
    (others : Answering other) where
  turn-first : (v : Worker A) (w : Worker B) (b : Bool) → turn v w b ≡ first → 0 < work job v
  turn-first v w b h = ground arith

  turn-second : (v : Worker A) (w : Worker B) (b : Bool) → turn v w b ≡ second → 0 < work other w
  turn-second v w b h = ground arith

  turn-nobody :
      (v : Worker A) (w : Worker B) (b : Bool) (log : Log)
      → turn v w b ≡ nobody
      → BothStopped (returned (v, w), log)
  turn-nobody v w b log h = ground arith

  no_work-BothStopped :
      (v : Worker A) (w : Worker B) (log : Log)
      → work job v + work other w ≤ 0
      → BothStopped (returned (v, w), log)
  no_work-BothStopped v w log h = ground arith

  first_then :
      (fuel : ℕ) (v : Worker A) (w : Worker B) (ended : Exit (Worker A) × Log)
      → ((v' : Worker A) (l : Log)
          → work job v' < work job v
          → BothStopped (run_both env job other fuel v' w l))
      → Advanced job v ended
      → BothStopped (((λ (log : Log). ended) >>= λ v'. run_both env job other fuel v' w) ended.1)
  first_then fuel v w (returned v', log) later less = later v' log less
  first_then fuel v w (failed e, log) later less = absurd less
  first_then fuel v w (panicked, log) later less = absurd less

  second_then :
      (fuel : ℕ) (v : Worker A) (w : Worker B) (ended : Exit (Worker B) × Log)
      → ((w' : Worker B) (l : Log)
          → work other w' < work other w
          → BothStopped (run_both env job other fuel v w' l))
      → Advanced other w ended
      → BothStopped (((λ (log : Log). ended) >>= λ w'. run_both env job other fuel v w') ended.1)
  second_then fuel v w (returned w', log) later less = later w' log less
  second_then fuel v w (failed e, log) later less = absurd less
  second_then fuel v w (panicked, log) later less = absurd less

  -- When the steps are at least what both goroutines have left, both have stopped at the end: the
  -- wait for them ends without a failure or a panic, whatever the scheduler chooses.
  pub run_both-BothStopped :
      (fuel : ℕ) (v : Worker A) (w : Worker B) (log : Log)
      → work job v + work other w ≤ fuel
      → BothStopped (run_both env job other fuel v w log)
  unfolding run_both
  run_both-BothStopped zero v w log enough = no_work-BothStopped v w log enough
  run_both-BothStopped (suc fuel) v w log enough =
      by_turn (λ v' l less. run_both-BothStopped fuel v' w l (omega arith))
        (λ w' l less. run_both-BothStopped fuel v w' l (omega arith))
        (turn v w (env.runs_first log)) refl
    where
      by_turn :
          ((v' : Worker A) (l : Log)
            → work job v' < work job v
            → BothStopped (run_both env job other fuel v' w l))
          → ((w' : Worker B) (l : Log)
              → work other w' < work other w
              → BothStopped (run_both env job other fuel v w' l))
          → (t : Turn) → turn v w (env.runs_first log) ≡ t
          → BothStopped {A = A} {B = B} (elim t [
            | first ↦ (worker_step job env v >>= λ v'. run_both env job other fuel v' w) log
            | second ↦ (worker_step other env w >>= λ w'. run_both env job other fuel v w') log
            | nobody ↦ (pure (v, w)) log
          ])
      by_turn one two first h =
          first_then fuel v w (worker_step job env v log) one
            (worker_step-Advanced job env v log calls (turn-first v w _ h))
      by_turn one two second h =
          second_then fuel v w (worker_step other env w log) two
            (worker_step-Advanced other env w log others (turn-second v w _ h))
      by_turn one two nobody h = turn-nobody v w (env.runs_first log) log h
