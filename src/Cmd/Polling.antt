-- ===== src/Cmd/Polling.antt =====
-- What the commands of cmd/nodepool, cmd/controlplane and cmd/cluster share: the client that they
-- talk through, and the loop that looks at an object every thirty seconds.
pub mod Seen
use azk.Base.{ℕ, zero, suc, Bool, true, false}
use azk.Api.{Result, ok, err}
use azk.World.{
  Env, Act, pure, lift, ask, ◌>>=◌, KubeClient, client_of, getenv, build_config, client_new, sleep,
}

-- `BuildConfigFromFlags("", os.Getenv("KUBECONFIG"))` and `client.New`.
unfoldable pub kube_client : Env → Act KubeClient
kube_client env = do
  path ← ask env (getenv "KUBECONFIG")
  cfg ← (ask env (build_config path) >>= lift)
  _ ← (ask env (client_new cfg) >>= lift)
  pure (client_of cfg)

module _ {A : Type 0} where
  -- A `Get` sets the object; after an error the object is as it was.
  abbrev pub last_seen : A → Result A → A
  last_seen before (ok found) = found
  last_seen before (err e) = before

  abbrev pub shows : (A → Bool) → Result A → Bool
  shows reached (ok found) = reached found
  shows reached (err e) = false

  module _ (env : Env) (fetch : Act (Result A)) (reached : A → Bool) where
    -- The rounds that are left and the object as last seen; whether the loop was left early.
    unfoldable pub poll_until : ℕ → A → Act (Bool × A)
    poll_until zero before = pure (false, before)
    poll_until (suc rounds) before = do
      got ← fetch
      elim (shows reached got) [
        | true ↦ pure (true, last_seen before got)
        | false ↦ ask env (sleep 30) >>= λ _. poll_until rounds (last_seen before got)
      ]
