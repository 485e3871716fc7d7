-- ===== src/Azure/Network/Running.antt =====
-- The end that the creations and deletions of azure/*.go share: the operation was started or not,
-- it is waited for, and its result is asked for.
use azk.Base.{ℕ, String}
use azk.Api.{Result, wrapped}
use azk.World.{
  Env, Act, fail, lift, ask, on_error, ◌>>=◌, AzureClient, azure, network, NetworkRequest,
  NetworkReply, wait_for_completion,
}

module _ (env : Env) (client : AzureClient) where
  abbrev pub ask_network : (r : NetworkRequest) → Act (NetworkReply r)
  ask_network r = ask env (azure client (network r))

  unfoldable pub completed : {A : Type 0} → String → String → Result ℕ → (ℕ → Act A) → Act A
  completed start_text wait_text started result =
      on_error (lift started) (λ e. fail (wrapped start_text e))
        λ future. do
          waited ← ask env (azure client (wait_for_completion future))
          on_error (lift waited) (λ e. fail (wrapped wait_text e)) λ _. result future
