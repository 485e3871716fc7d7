-- ===== src/Cmd/Clusters/Timeouts.antt =====
-- The end of `RunCreate` (cmd/cluster/cluster.go): the two goroutines in the command, and which of
-- their outcomes are errors.
use azk.Base.{ℕ, zero, suc, String, some, ◌≡◌, arith, ◌<>◌}
use azk.Api.{Result, ok, err, ControlPlane, NodePool}
use azk.World.{
  Env, Log, Exit, returned, failed, panicked, pure, ◌>>=◌, KubeClient, KubeRequest, kube,
}
use azk.World.Ends.{DidReturn}
use azk.Cmd.Polling.{last_seen}
use azk.Cmd.NodePools.{named, new_node_pool}
use azk.Cmd.ControlPlanes.{new_control_plane}
use azk.Cmd.Clusters.{plane_job, pool_job, create_plane_and_pool, CreateOptions, report_both}
use azk.Cmd.Clusters.Workers.{
  Job, Worker, writing, creating, looking, sleeping, stopped, Turn, first, second, nobody, turn,
  worker_step, run_both, after_create, after_look, after_loop, worker_error,
}
use azk.Cmd.Clusters.Stopping.{BothStopped, run_both-BothStopped}

module _ (env : Env) (client : KubeClient) where
  -- The wait of `RunCreate` for its goroutines ends, whatever the answers are and whichever way they
  -- are interleaved: after the steps that the command allows, both have stopped.
  pub create_plane_and_pool_stops :
      (name plane_file pool_file pool_name : String) (plane_text pool_text : Result String)
      (plane : ControlPlane) (pool : NodePool) (log : Log)
      → BothStopped (
          run_both env
            (plane_job env client name plane_file plane_text plane)
            (pool_job env client name pool_file pool_text pool_name pool)
            106
            writing
            writing
            log)
  create_plane_and_pool_stops name plane_file pool_file pool_name plane_text pool_text plane pool
        log =
      run_both-BothStopped env (plane_job env client name plane_file plane_text plane)
        (pool_job env client name pool_file pool_text pool_name pool)
        (record { created = record { at = λ l. tt }; fetched = record { at = λ l. tt } })
        (record { created = record { at = λ l. tt }; fetched = record { at = λ l. tt } }) 106
        writing writing log (omega arith)

abbrev AcceptedEnd : {A : Type 0} → Exit (Result A) × Log → Type 0
AcceptedEnd (returned (ok a), after) = Unit
AcceptedEnd _ = ⊥

-- A job whose object can be written in YAML and whose creation is accepted.
pub record Accepted {A : Type 0} (job : Job A) : Type 0 where
  pub text : String
  pub marshals : job.marshalled ≡ ok text
  pub creates : (log : Log) → AcceptedEnd (job.create log)

abbrev NoError : {A : Type 0} → Worker A → Type 0
NoError (stopped (some e)) = ⊥
NoError _ = Unit

module _ {A : Type 0} (job : Job A) (accepted : Accepted job) where
  abbrev NoErrorEnd : Exit (Worker A) × Log → Type 0
  NoErrorEnd (returned w, after) = NoError w
  NoErrorEnd _ = Unit

  NoError-after_loop : (last : A) → NoError (after_loop job last)
  NoError-after_loop last = ground (arith, accepted.marshals)

  NoError-after_look :
      (rounds : ℕ) (before : A) (got : Result A) → NoError (after_look job rounds before got)
  NoError-after_look rounds before got = ground (arith, NoError-after_loop (last_seen before got))

  NoError-after_create :
      (ended : Exit (Result A) × Log)
      → AcceptedEnd ended
      → NoErrorEnd (((λ (log : Log). ended) >>= λ made. pure (after_create job made)) ended.1)
  NoError-after_create (returned (ok a), log) h = tt
  NoError-after_create (returned (err e), log) h = h
  NoError-after_create (failed e, log) h = tt
  NoError-after_create (panicked, log) h = tt

  NoError-after_fetch :
      (rounds : ℕ) (before : A) (ended : Exit (Result A) × Log)
      → NoErrorEnd
          (((λ (log : Log). ended) >>= λ got. pure (after_look job rounds before got)) ended.1)
  NoError-after_fetch rounds before (returned got, log) = NoError-after_look rounds before got
  NoError-after_fetch rounds before (failed e, log) = tt
  NoError-after_fetch rounds before (panicked, log) = tt

  -- No step of such a job sets an error.
  worker_step-NoError :
      (env : Env) (w : Worker A) (log : Log) → NoError w → NoErrorEnd (worker_step job env w log)
  unfolding worker_step
  worker_step-NoError env writing log h = ground arith
  worker_step-NoError env creating log h =
      NoError-after_create (job.create log) (accepted.creates log)
  worker_step-NoError env (looking zero last) log h = NoError-after_loop last
  worker_step-NoError env (looking (suc rounds) last) log h =
      NoError-after_fetch rounds last (job.fetch log)
  worker_step-NoError env (sleeping rounds last) log h = tt
  worker_step-NoError env (stopped e) log h = h

abbrev NoErrors : {A B : Type 0} → Exit (Worker A × Worker B) × Log → Type 0
NoErrors (returned (v, w), after) = NoError v × NoError w
NoErrors _ = Unit

module _ {A B : Type 0} (env : Env) (job : Job A) (other : Job B) (accepted : Accepted job)
    (others : Accepted other) where
  module _ (fuel : ℕ)
      (later : (v : Worker A) (w : Worker B) (l : Log)
        → NoError v
        → NoError w
        → NoErrors (run_both env job other fuel v w l)) where
    first_NoErrors :
        (w : Worker B) (ended : Exit (Worker A) × Log)
        → NoErrorEnd job accepted ended
        → NoError w
        → NoErrors (((λ (log : Log). ended) >>= λ v. run_both env job other fuel v w) ended.1)
    first_NoErrors w (returned v, log) hv hw = later v w log hv hw
    first_NoErrors w (failed e, log) hv hw = tt
    first_NoErrors w (panicked, log) hv hw = tt

    second_NoErrors :
        (v : Worker A) (ended : Exit (Worker B) × Log)
        → NoErrorEnd other others ended
        → NoError v
        → NoErrors (((λ (log : Log). ended) >>= λ w. run_both env job other fuel v w) ended.1)
    second_NoErrors v (returned w, log) hw hv = later v w log hv hw
    second_NoErrors v (failed e, log) hw hv = tt
    second_NoErrors v (panicked, log) hw hv = tt

    turn_NoErrors :
        (v : Worker A) (w : Worker B) (log : Log)
        → NoError v
        → NoError w
        → (t : Turn)
        → NoErrors {A = A} {B = B} (elim t [
          | first ↦ (worker_step job env v >>= λ v'. run_both env job other fuel v' w) log
          | second ↦ (worker_step other env w >>= λ w'. run_both env job other fuel v w') log
          | nobody ↦ (pure (v, w)) log
        ])
    turn_NoErrors v w log hv hw first =
        first_NoErrors w (worker_step job env v log) (worker_step-NoError job accepted env v log hv)
          hw
    turn_NoErrors v w log hv hw second =
        second_NoErrors v (worker_step other env w log)
          (worker_step-NoError other others env w log hw) hv
    turn_NoErrors v w log hv hw nobody = (hv, hw)

  run_both-NoErrors :
      (fuel : ℕ) (v : Worker A) (w : Worker B) (log : Log)
      → NoError v
      → NoError w
      → NoErrors (run_both env job other fuel v w log)
  unfolding run_both
  run_both-NoErrors zero v w log hv hw = (hv, hw)
  run_both-NoErrors (suc fuel) v w log hv hw =
      turn_NoErrors fuel (λ v' w' l. run_both-NoErrors fuel v' w' l) v w log hv hw
        (turn v w (env.runs_first log))

-- The two objects that `RunCreate` creates at its end.
abbrev pub plane_of : String → CreateOptions → ControlPlane
plane_of name o = new_control_plane (named name name) o.kubernetes_version o.vm_sku_type

abbrev pub pool_of : String → CreateOptions → NodePool
pool_of name o =
    new_node_pool (named o.node_pool_name name) o.kubernetes_version (some o.node_pool_count)
      o.vm_sku_type

abbrev pub IsAccepted : {A : Type 0} → Result A → Type 0
IsAccepted (ok a) = Unit
IsAccepted (err e) = ⊥

accepted_end :
    {A : Type 0} (made : Result A) (log : Log) → IsAccepted made → AcceptedEnd (returned made, log)
accepted_end (ok a) log h = tt
accepted_end (err e) log h = h

module _ (env : Env) (client : KubeClient) (dir name : String) (o : CreateOptions) where
  reported_DidReturn :
      (ended : Exit (Worker ControlPlane × Worker NodePool) × Log)
      → BothStopped ended
      → NoErrors ended
      → DidReturn
          (((λ (log : Log). ended) >>= λ workers.
              report_both env name (worker_error workers.0) (worker_error workers.1))
            ended.1).0
  reported_DidReturn ended stopped_both no_errors = ground arith

  -- When both objects can be written in YAML and both creations are accepted, the end of `RunCreate`
  -- is no error, whatever the answers to its `Get`s are: also when neither object is ever
  -- provisioned, it returns as after a success.
  pub create_plane_and_pool_timeout :
      (plane_text pool_text : String) (log : Log)
      → env.marshal_control_plane (plane_of name o) ≡ ok plane_text
      → env.marshal_node_pool (pool_of name o) ≡ ok pool_text
      → ((l : Log)
          → IsAccepted
              (env.answer l (kube client (KubeRequest.create_control_plane (plane_of name o)))))
      → ((l : Log)
          → IsAccepted (env.answer l (kube client (KubeRequest.create_node_pool (pool_of name o)))))
      → DidReturn (create_plane_and_pool env client dir name o log).0
  unfolding create_plane_and_pool
  create_plane_and_pool_timeout plane_text pool_text log plane_marshals pool_marshals plane_made
        pool_made =
      let job =
        plane_job env client name (dir <> "/controlplanespec.yml")
          (env.marshal_control_plane (plane_of name o)) (plane_of name o) in
      let other =
        pool_job env client name (dir <> "/nodepoolspec.yml")
          (env.marshal_node_pool (pool_of name o)) o.node_pool_name (pool_of name o) in
      let accepted : Accepted job = record {
        text = plane_text;
        marshals = plane_marshals;
        creates = λ l. accepted_end _ _ (plane_made l);
      } in
      let others : Accepted other = record {
        text = pool_text;
        marshals = pool_marshals;
        creates = λ l. accepted_end _ _ (pool_made l);
      } in
      reported_DidReturn (run_both env job other 106 writing writing log)
        (create_plane_and_pool_stops env client name _ _ _ _ _ _ _ log)
        (run_both-NoErrors env job other accepted others 106 writing writing log tt tt)
