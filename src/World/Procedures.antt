-- ===== src/World/Procedures.antt =====
-- The program's procedures: they make calls, return a value, fail with an error or panic. The
-- log of the calls made so far, newest first, is the state that they thread.
use azk.Base.{ℕ, String, Bool, Option, none, some, List, ◌∷◌, get_elem?}
use azk.Api.{Error, Result, ok, err, ObjectMeta, Spec, Cluster, ControlPlane, NodePool}
use azk.World.Web.{ClusterItem, EventItem}
use azk.World.Requests.{Call, Answer}

abbrev pub Log : Type 0
Log = List Call

-- The systems around the program: they answer each call in any way that may depend on all the
-- calls before it. The other fields are library functions without effects.
pub record Env : Type 0 where
  pub answer : Log → (c : Call) → Answer c
  pub is_not_found : Error → Bool
  pub environment_from_name : String → Result (String × String)
  pub new_oauth_config : String → String → Result ℕ
  pub new_service_principal_token : ℕ → String → String → String → Result ℕ
  pub marshal_authorized_key : ℕ → String
  pub set_controller_reference : ObjectMeta → ObjectMeta → Result ObjectMeta
  pub parse_certs_pem : String → Result (List ℕ)
  pub pin_hash : ℕ → String
  pub parse_version : String → Result (String × String)
  pub error_text : Error → String
  pub marshal_spec : Spec → Result String
  pub marshal_cluster : Cluster → Result String
  pub marshal_control_plane : ControlPlane → Result String
  pub marshal_node_pool : NodePool → Result String
  pub runs_first : Log → Bool
  pub semver_make : String → Result ℕ
  pub semver_gte : ℕ → ℕ → Bool
  pub semver_lte : ℕ → ℕ → Bool
  pub marshal_cluster_items : List ClusterItem → Result String
  pub marshal_event_items : List EventItem → Result String
  pub join_path : String → String → String

-- `failed` is a returned `error`, `panicked` a run-time panic.
pub data Exit (A : Type 0) : Type 0 where
  returned : A → Exit A
  failed : Error → Exit A
  panicked : Exit A

abbrev pub Act : Type 0 → Type 0
Act A = Log → Exit A × Log

module _ {A : Type 0} where
  abbrev pub pure : A → Act A
  pure a log = (returned a, log)

  abbrev pub fail : Error → Act A
  fail e log = (failed e, log)

  abbrev pub panic : Act A
  panic log = (panicked, log)

module _ {A B : Type 0} where
  abbrev continue : Exit A → (A → Act B) → Act B
  continue (returned a) f log = f a log
  continue (failed e) f log = (failed e, log)
  continue panicked f log = (panicked, log)

  -- `if err != nil { return err }` between the two parts.
  infixl 5 ◌>>=◌
  abbrev pub ◌>>=◌ : Act A → (A → Act B) → Act B
  ◌>>=◌ m f log = let (r, log') = m log in continue r f log'

  infixl 5 ◌>>◌
  abbrev pub ◌>>◌ : Act A → Act B → Act B
  m >> k = m >>= λ _. k

  abbrev handle : Exit A → (Error → Act B) → (A → Act B) → Act B
  handle (returned a) h f log = f a log
  handle (failed e) h f log = h e log
  handle panicked h f log = (panicked, log)

  -- `if err != nil { h }` and otherwise `f`.
  abbrev pub on_error : Act A → (Error → Act B) → (A → Act B) → Act B
  on_error m h f log = let (r, log') = m log in handle r h f log'

-- `defer helpers.Recover()`: a panic ends the function with the zero value of its result.
abbrev recovered : {A : Type 0} → A → Exit A → Exit A
recovered zero_value (returned a) = returned a
recovered zero_value (failed e) = failed e
recovered zero_value panicked = returned zero_value

abbrev pub recover : {A : Type 0} → A → Act A → Act A
recover zero_value m log = let (r, log') = m log in (recovered zero_value r, log')

-- `defer cleanup()`: the clean-up runs however the function ends.
abbrev pub finally : {A B : Type 0} → Act B → Act A → Act A
finally cleanup m log = let (r, log') = m log in (r, (cleanup log').1)

module _ {A : Type 0} where
  abbrev pub lift : Result A → Act A
  lift (ok a) = pure a
  lift (err e) = fail e

  -- `*p`, which panics at nil, and `s[i]`, which panics out of range.
  abbrev pub deref : Option A → Act A
  deref none = panic
  deref (some a) = pure a

  abbrev pub index : List A → ℕ → Act A
  index xs i = deref (get_elem? xs i)

-- One call, with its answer as it is.
abbrev pub ask : Env → (c : Call) → Act (Answer c)
ask env c log = (returned (env.answer log c), c ∷ log)
