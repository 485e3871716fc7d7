-- ===== src/Bootstrap/Token.antt =====
-- `CreateNewBootstrapToken` (bootstrap/spec.go). The callers drop the token beside an error.
use azk.Base.{ℕ, String, List, [], ◌∷◌}
use azk.World.{
  Env, Act, pure, lift, ask, ◌>>=◌, ◌>>◌, BootstrapToken, generate_bootstrap_token, get_config,
  new_client_set, parse_token, create_new_tokens,
}

-- One hour, for joining nodes.
abbrev pub bootstrap_tokens : ℕ → List BootstrapToken
bootstrap_tokens token_string =
    record {
      token = token_string;
      ttl_hours = 1;
      groups = "system:bootstrappers:kubeadm:default-node-token" ∷ [];
      usages = "signing" ∷ "authentication" ∷ [];
    }
    ∷ []

module _ (env : Env) where
  unfoldable pub create_new_bootstrap_token : Act String
  create_new_bootstrap_token = do
    token ← (ask env generate_bootstrap_token >>= lift)
    ask env get_config >>= lift
    ask env new_client_set >>= lift
    token_string ← (ask env (parse_token token) >>= lift)
    ask env (create_new_tokens (bootstrap_tokens token_string)) >>= lift
    pure token
