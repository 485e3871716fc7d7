-- ===== src/Helpers/Versions.antt =====
-- The lookups of a Kubernetes version (helpers/helpers.go) in the texts that its site publishes.
use azk.Base.{String, Bool, ◌<>◌, ◌==◌, ◌||◌, if◌then◌else◌}
use azk.World.{Env, Act, pure, panic, lift, ask, ◌>>=◌, http_get}
use azk.Std.{trim_space}

-- `body[1:]`, which panics on an empty body; the first letter of a published version is one byte.
abbrev pub after_first : String → Act String
after_first String.[] = panic
after_first (String.◌∷◌ c s) = pure s

abbrev pub is_channel : String → Bool
is_channel version = (version == "stable") || (version == "latest")

abbrev pub release_url : String → String
release_url name = "https://storage.googleapis.com/kubernetes-release/release/" <> name <> ".txt"

module _ (env : Env) where
  unfoldable pub published : String → Act String
  published name = do
    response ← (ask env (http_get (release_url name)) >>= lift)
    body ← lift response
    rest ← after_first body
    pure (trim_space rest)

  unfoldable pub get_kubernetes_version : String → Act String
  unfolding published
  get_kubernetes_version version = if is_channel version then published version else pure version

  -- The part that `GetStableUpgradeKubernetesVersion` and `GetLatestUpgradeKubernetesVersion` share.
  unfoldable pub upgrade_version : String → String → Act String
  unfolding get_kubernetes_version
  upgrade_version channel version =
      if is_channel version
      then get_kubernetes_version version
      else lift (env.parse_version version)
        >>= (λ v. published (channel <> "-" <> v.0 <> "." <> v.1))

  abbrev pub get_stable_upgrade_kubernetes_version : String → Act String
  get_stable_upgrade_kubernetes_version version = upgrade_version "stable" version

  abbrev pub get_latest_upgrade_kubernetes_version : String → Act String
  get_latest_upgrade_kubernetes_version version = upgrade_version "latest" version
