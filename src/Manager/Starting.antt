-- ===== src/Manager/Starting.antt =====
-- When the manager (manager/main.go) is started.
use azk.Base.{String, Bool, List, [], ◌∷◌, ◌≡◌, refl, ◌⊎◌, inl, inr}
use azk.Api.{Result, ok, err}
use azk.World.{
  Env, Log, Exit, Act, pure, panic, lift, on_error, ask, ◌>>=◌, Answer, Call, returned, failed,
  panicked, get_config, new_manager, setup_with_manager, start_manager,
}
use azk.World.Web.{cluster, control_plane, node_pool, node_set}
use azk.Manager.{run_manager}

abbrev Succeeded : {A : Type 0} → Result A → Type 0
Succeeded (ok a) = Unit
Succeeded (err e) = ⊥

abbrev Erred : {A : Type 0} → Result A → Type 0
Erred (ok a) = ⊥
Erred (err e) = Unit

-- The answer to a call of the start-up is a success, or an error.
abbrev Accepted : (c : Call) → Answer c → Type 0
Accepted get_config r = Succeeded r
Accepted (new_manager _ _) r = Succeeded r
Accepted (setup_with_manager _ _) r = Succeeded r
Accepted start_manager r = Succeeded r
Accepted _ r = ⊥

abbrev Refused : (c : Call) → Answer c → Type 0
Refused get_config r = Erred r
Refused (new_manager _ _) r = Erred r
Refused (setup_with_manager _ _) r = Erred r
Refused start_manager r = Erred r
Refused _ r = ⊥

module _ (env : Env) where
  -- The calls were made one after another, and each of them succeeded.
  abbrev pub Completed : List Call → Log → Log → Type 0
  Completed [] log after = after ≡ log
  Completed (c ∷ calls) log after = Accepted c (env.answer log c) × Completed calls (c ∷ log) after

  -- One of the calls failed, after those before it succeeded, and it was the last one made.
  abbrev pub StoppedAt : List Call → Log → Log → Type 0
  StoppedAt [] log after = ⊥
  StoppedAt (c ∷ calls) log after =
      (Refused c (env.answer log c) × (after ≡ c ∷ log))
      ⊎ (Accepted c (env.answer log c) × StoppedAt calls (c ∷ log) after)

  -- The process ends as these calls do.
  abbrev pub StartOutcome : List Call → Log → Exit (Unit {0}) × Log → Type 0
  StartOutcome calls log (returned _, after) = Completed calls log after
  StartOutcome calls log (failed _, after) = ⊥
  StartOutcome calls log (panicked, after) = StoppedAt calls log after

  record Runs (calls : List Call) (log : Log) (m : Act (Unit {0})) : Type 0 where
    at : StartOutcome calls log (m log)

  module _ (c : Call) (calls : List Call) (log : Log) where
    after_success :
        (ended : Exit (Unit {0}) × Log)
        → Accepted c (env.answer log c)
        → StartOutcome calls (c ∷ log) ended
        → StartOutcome (c ∷ calls) log ended
    after_success (returned done, after) good h = (good, h)
    after_success (failed e, after) good h = h
    after_success (panicked, after) good h = inr (good, h)

    module _ {A : Type 0} (f : A → Act (Unit {0}))
        (rest : (a : A) → Runs calls (c ∷ log) (f a)) where
      exits_or_goes_on :
          (answered : Result A)
          → (Succeeded answered → Accepted c (env.answer log c))
          → (Erred answered → Refused c (env.answer log c))
          → StartOutcome (c ∷ calls) log (on_error (lift answered) (λ e. panic) f (c ∷ log))
      exits_or_goes_on (ok a) good bad = after_success (f a (c ∷ log)) (good tt) (rest a).at
      exits_or_goes_on (err e) good bad = inl (bad tt, refl)

      -- One call: the process goes on or exits.
      stage :
          (answered : Answer c → Result A)
          → (Succeeded (answered (env.answer log c)) → Accepted c (env.answer log c))
          → (Erred (answered (env.answer log c)) → Refused c (env.answer log c))
          → Runs
              (c ∷ calls)
              log
              (on_error (ask env c >>= λ got. lift (answered got)) (λ e. panic) f)
      stage answered good bad = record {
        at = exits_or_goes_on (answered (env.answer log c)) good bad;
      }

  done : (log : Log) → Runs [] log (pure tt)
  done log = record { at = refl }

  module _ (metrics_addr : String) (enable_leader_election : Bool) where
    -- The start of a manager with its four controllers.
    abbrev pub start_up : List Call
    start_up =
        get_config
        ∷ new_manager metrics_addr enable_leader_election
        ∷ setup_with_manager cluster 30
        ∷ setup_with_manager control_plane 30
        ∷ setup_with_manager node_pool 30
        ∷ setup_with_manager node_set 30
        ∷ start_manager
        ∷ []

    -- The process gets a configuration, makes a manager, registers the four controllers with it and
    -- starts it, in this order, each step only after all steps before it succeeded. The first step that
    -- fails is the last one, and the process exits with an error then, and only then.
    pub run_manager_outcome :
        (log : Log)
        → StartOutcome start_up log (run_manager env metrics_addr enable_leader_election log)
    unfolding run_manager
    run_manager_outcome log =
        let runs : Runs start_up log (run_manager env metrics_addr enable_leader_election) =
          stage get_config _ log _
            (λ _.
              stage (new_manager metrics_addr enable_leader_election) _ _ _
                (λ _.
                  stage (setup_with_manager cluster 30) _ _ _
                    (λ _.
                      stage (setup_with_manager control_plane 30) _ _ _
                        (λ _.
                          stage (setup_with_manager node_pool 30) _ _ _
                            (λ _.
                              stage (setup_with_manager node_set 30) _ _ _
                                (λ _.
                                  stage start_manager _ _ _ (λ _. done _) (λ got. got) (λ h. h)
                                    (λ h. h))
                                (λ got. got) (λ h. h) (λ h. h))
                            (λ got. got) (λ h. h) (λ h. h))
                        (λ got. got) (λ h. h) (λ h. h))
                    (λ got. got) (λ h. h) (λ h. h))
                (λ got. got) (λ h. h) (λ h. h))
            (λ got. got) (λ h. h) (λ h. h) in
        runs.at
