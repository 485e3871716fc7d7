-- ===== src/Cmd/Clusters/Workers.antt =====
-- The two goroutines of `RunCreate` (cmd/cluster/cluster.go): each creates an object and looks at it
-- until it is provisioned. Go's scheduler chooses which one makes the next call.
use azk.Base.{ℕ, zero, suc, ◌+◌, ◌*◌, String, Bool, Option, none, some, if◌then◌else◌}
use azk.Api.{Error, Result, ok, err}
use azk.World.{Env, Act, pure, ask, ◌>>=◌, write_file, sleep}
use azk.Cmd.Polling.{last_seen, shows}

-- What a goroutine works on: its creation, its `Get`, what it waits for, the object before the first
-- `Get`, its rounds, and the object in YAML with the file for it.
pub record Job (A : Type 0) : Type 0 where
  pub create : Act (Result A)
  pub fetch : Act (Result A)
  pub reached : A → Bool
  pub empty : A
  pub rounds : ℕ
  pub marshalled : Result String
  pub spec_file : String

-- Where a goroutine stands: the rounds that are left and the object as last seen, or the error that
-- it set, if any.
pub data Worker (A : Type 0) : Type 0 where
  writing : Worker A
  creating : Worker A
  looking : ℕ → A → Worker A
  sleeping : ℕ → A → Worker A
  stopped : Option Error → Worker A

pub data Turn : Type 0 where
  first second nobody : Turn

abbrev pub error_of : {A : Type 0} → Result A → Option Error
error_of (ok a) = none
error_of (err e) = some e

module _ {A : Type 0} (job : Job A) where
  -- The test after the loop; the `err` that a timeout sets is that of `yaml.Marshal`.
  abbrev pub after_loop : A → Worker A
  after_loop last = stopped (if job.reached last then none else error_of job.marshalled)

  abbrev pub after_create : Result A → Worker A
  after_create (ok _) = looking job.rounds job.empty
  after_create (err e) = stopped (some e)

  abbrev pub after_look : ℕ → A → Result A → Worker A
  after_look rounds before got =
      if shows job.reached got
      then after_loop (last_seen before got)
      else sleeping rounds (last_seen before got)

  -- The next call of a goroutine; without one it only moves on.
  unfoldable pub worker_step : Env → Worker A → Act (Worker A)
  worker_step env writing = elim job.marshalled [
    | ok text ↦ ask env (write_file job.spec_file text) >>= λ _. pure creating
    | err e ↦ pure creating
  ]
  worker_step env creating = job.create >>= λ made. pure (after_create made)
  worker_step env (looking zero last) = pure (after_loop last)
  worker_step env (looking (suc rounds) last) =
      job.fetch >>= λ got. pure (after_look rounds last got)
  worker_step env (sleeping rounds last) = ask env (sleep 30) >>= λ _. pure (looking rounds last)
  worker_step env (stopped e) = pure (stopped e)

module _ {A B : Type 0} where
  -- Who goes on: a goroutine that has stopped does not, and between two the scheduler chooses.
  abbrev pub turn : Worker A → Worker B → Bool → Turn
  turn (stopped _) (stopped _) b = nobody
  turn (stopped _) w b = second
  turn v (stopped _) b = first
  turn v w b = if b then first else second

  -- `wg.Wait()`: both goroutines run until they have stopped. The number of steps is fuel.
  unfoldable pub run_both :
      Env → Job A → Job B → ℕ → Worker A → Worker B → Act (Worker A × Worker B)
  unfolding worker_step
  run_both env job other zero v w log = pure (v, w) log
  run_both env job other (suc fuel) v w log = elim (turn v w (env.runs_first log)) [
    | first ↦ (worker_step job env v >>= λ v'. run_both env job other fuel v' w) log
    | second ↦ (worker_step other env w >>= λ w'. run_both env job other fuel v w') log
    | nobody ↦ (pure (v, w)) log
  ]

-- The calls and moves that a goroutine has left at most.
abbrev pub work : {A : Type 0} → Job A → Worker A → ℕ
work job writing = 2 * job.rounds + 3
work job creating = 2 * job.rounds + 2
work job (looking rounds _) = 2 * rounds + 1
work job (sleeping rounds _) = 2 * rounds + 2
work job (stopped _) = 0

abbrev pub worker_error : {A : Type 0} → Worker A → Option Error
worker_error (stopped e) = e
worker_error _ = none
