-- ===== src/Cmd/Apply.antt =====
-- cmd/helpers/helpers.go and `RunCreateorUpdateAddon` (cmd/addons/addons.go): manifests are copied
-- from the assets to a temporary folder and applied with kubectl.
use azk.Base.{String, ◌<>◌, Bool, true, false, Option, none, some, List, [], ◌∷◌}
use azk.Api.{Error, message}
use azk.World.{
  Env, Act, pure, fail, lift, ask, on_error, finally, ◌>>=◌, load_kubeconfig, kubectl_apply,
  read_dir, read_asset, mkdir_all, write_file, remove_all, read_file, getenv,
}

-- The error of `Execute`, or that of a fatal exit of kubectl.
abbrev apply_error : Option Error × Option String → Act (Unit {0})
apply_error (some e, _) = fail e
apply_error (none, some text) = fail (message ("failed to apply: " <> text))
apply_error (none, none) = pure tt

abbrev pub azk_asset_dir : String
azk_asset_dir = "/tmp/azk-assets/"

module _ (env : Env) where
  unfoldable pub kubectl_apply_path : String → String → Act (Unit {0})
  kubectl_apply_path manifest_path kubeconfig = do
    _ ← (ask env (load_kubeconfig kubeconfig) >>= lift)
    applied ← ask env (kubectl_apply manifest_path kubeconfig)
    apply_error applied

  -- One round of the loop over the folder's files; the error of `MkdirAll` is not looked at.
  unfoldable pub copy_asset : String → String → String → Act (Unit {0})
  copy_asset fs folder name = do
    let asset_file_name = folder <> "/" <> name
    opened ← (ask env (read_asset fs asset_file_name) >>= lift)
    text ← lift opened
    _ ← ask env (mkdir_all (azk_asset_dir <> folder))
    ask env (write_file (azk_asset_dir <> "/" <> asset_file_name) text) >>= lift

  unfoldable pub copy_assets : String → String → List (String × Bool) → Act (Unit {0})
  unfolding copy_asset
  copy_assets fs folder [] = pure tt
  copy_assets fs folder ((name, true) ∷ rest) = copy_assets fs folder rest
  copy_assets fs folder ((name, false) ∷ rest) = do
    _ ← copy_asset fs folder name
    copy_assets fs folder rest

  -- The error of `KubectlApply` is logged and then dropped.
  unfoldable pub kubectl_apply_folder : String → String → String → Act (Unit {0})
  unfolding copy_assets kubectl_apply_path
  kubectl_apply_folder folder kubeconfig fs =
      finally (ask env (remove_all (azk_asset_dir <> folder))) (do
        opened ← (ask env (read_dir fs folder) >>= lift)
        entries ← lift opened
        _ ← copy_assets fs folder entries
        on_error (kubectl_apply_path (azk_asset_dir <> folder) kubeconfig) (λ e. pure tt) pure)

  unfoldable pub run_create_or_update_addon : String → Act (Unit {0})
  run_create_or_update_addon addon = do
    path ← ask env (getenv "KUBECONFIG")
    kubeconfig ← (ask env (read_file path) >>= lift)
    kubectl_apply_folder addon kubeconfig "addonassets"
