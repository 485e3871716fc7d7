-- ===== src/Azure/CustomData.antt =====
-- `GetCustomData` (azure/vmss.go): the cloud-init text, and `GenerateRandomHexString`
-- (helpers/helpers.go). Go ranges over a map in an unspecified order, another one each time.
use azk.Base.{ℕ, zero, suc, String, ◌<>◌, List, [], ◌∷◌}
use azk.World.{Env, Act, pure, ask, index, ◌>>=◌, range_map, rand_intn}
use azk.Std.{base64, hex_alphabet}

abbrev pub file_entry : String → String → String → String
file_entry permissions key value =
    "\n- path: "
    <> key
    <> "\n  permissions: \""
    <> permissions
    <> "\"\n  encoding: base64\n  owner: root\n  content: |\n    "
    <> base64 value
    <> "\n"

unfoldable pub write_files : String → List (String × String) → String → String
write_files permissions [] text = text
write_files permissions ((key, value) ∷ files) text =
    write_files permissions files (text <> file_entry permissions key value)

unfoldable pub run_commands : List (String × String) → String → String
run_commands [] text = text
run_commands ((key, value) ∷ files) text =
    run_commands files (text <> ("\n - sudo " <> key <> "\n"))

module _ (env : Env) where
  unfoldable pub get_custom_data : List (String × String) → List (String × String) → Act String
  unfolding write_files run_commands
  get_custom_data custom_data custom_run_data = do
    files ← ask env (range_map custom_data)
    scripts ← ask env (range_map custom_run_data)
    commands ← ask env (range_map custom_run_data)
    pure (
        run_commands commands (
          write_files "0755" scripts (write_files "0644" files "\n#cloud-config\nwrite_files:\n")
          <> "\nruncmd:\n"))

  unfoldable pub random_digits : ℕ → String → Act String
  random_digits zero text = pure text
  random_digits (suc n) text = do
    i ← ask env (rand_intn 16)
    d ← index hex_alphabet i
    random_digits n (text <> d)

  unfoldable pub generate_random_hex_string : ℕ → Act String
  unfolding random_digits
  generate_random_hex_string n = random_digits n ""
