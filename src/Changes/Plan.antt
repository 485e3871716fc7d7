-- ===== src/Changes/Plan.antt =====
-- Procedures that carry out a plan: they make the changes of the plan in its order, all of them when
-- they return, and otherwise those of a first part of it.
use azk.Base.{
  ℕ, Bool, true, false, List, [], ◌∷◌, ◌++◌, ◌≡◌, refl, sym, ap, ◌∙◌, String, Option, none, some,
  if◌then◌else◌, arith,
}
use azk.Api.{Error, Result, ok, err, wrapped}
use azk.World.{
  Env, Log, Call, Exit, returned, failed, panicked, Act, pure, fail, lift, deref, ask, on_error,
  ◌>>=◌, AzureClient, azure, network, AzureRequest, NetworkRequest, group_create_or_update,
  security_group_create_or_update, route_table_create_or_update, vnet_create_or_update,
  load_balancer_create_or_update, public_ip_create_or_update, wait_for_completion, PublicIpAddress,
}
use azk.Azure.{usable, completed}

-- The resources that the base infrastructure is made of; a public address has the full name that is
-- asked for.
pub data Resource : Type 0 where
  resource_group : String → Resource
  security_group : String → Resource
  route_table : String → Resource
  virtual_network : String → Resource
  load_balancer : String → Resource
  public_ip : String → Option String → Resource

-- The full name that a description of a public address asks for.
abbrev asked_fqdn : PublicIpAddress → Option String
asked_fqdn ip = elim ip.properties [ none ↦ none | some properties ↦ properties.fqdn ]

abbrev network_creation : NetworkRequest → Option Resource
network_creation (security_group_create_or_update _ name _) = some (security_group name)
network_creation (route_table_create_or_update _ name _) = some (route_table name)
network_creation (vnet_create_or_update _ name _) = some (virtual_network name)
network_creation (load_balancer_create_or_update _ name _) = some (load_balancer name)
network_creation (public_ip_create_or_update _ name ip) = some (public_ip name (asked_fqdn ip))
network_creation _ = none

abbrev azure_creation : AzureRequest → Option Resource
azure_creation (group_create_or_update name _) = some (resource_group name)
azure_creation (network r) = network_creation r
azure_creation _ = none

abbrev pub creation : Call → Option Resource
creation (azure _ r) = azure_creation r
creation _ = none

abbrev with_creation : Option Resource → List Resource → List Resource
with_creation none made = made
with_creation (some r) made = r ∷ made

-- The resources whose creation was asked for so far, newest first.
abbrev pub created : Log → List Resource
created [] = []
created (c ∷ log) = with_creation (creation c) (created log)

-- The resources of a plan on top of those made before.
abbrev pub after_plan : List Resource → List Resource → List Resource
after_plan [] made = made
after_plan (r ∷ plan) made = after_plan plan (r ∷ made)

after_plan-append :
    (plan later made : List Resource)
    → after_plan (plan ++ later) made ≡ after_plan later (after_plan plan made)
after_plan-append [] later made = refl
after_plan-append (r ∷ plan) later made = after_plan-append plan later (r ∷ made)

append_assoc : (a b c : List Resource) → (a ++ b) ++ c ≡ a ++ (b ++ c)
append_assoc [] b c = refl
append_assoc (r ∷ a) b c = ap (λ t. r ∷ t) (append_assoc a b c)

-- The resources made are those of a first part of the plan.
abbrev pub StoppedIn : List Resource → List Resource → List Resource → Type 0
StoppedIn plan before after =
    (done : List Resource) × (rest : List Resource) × (plan ≡ done ++ rest)
    × (after ≡ after_plan done before)

-- A procedure that returned has carried out the plan, any other has stopped in it.
abbrev pub Outcome : {A : Type 0} → List Resource → List Resource → Exit A × Log → Type 0
Outcome plan before (returned _, after) = created after ≡ after_plan plan before
Outcome plan before (failed _, after) = StoppedIn plan before (created after)
Outcome plan before (panicked, after) = StoppedIn plan before (created after)

pub record Follows {A : Type 0} (plan : List Resource) (m : Act A) : Type 0 where
  pub at : (log : Log) → Outcome plan (created log) (m log)

StoppedIn-left :
    (plan later before after : List Resource)
    → StoppedIn plan before after
    → StoppedIn (plan ++ later) before after
StoppedIn-left plan later before after (done, rest, whole, made) =
    (done, rest ++ later, ap (λ p. p ++ later) whole ∙ append_assoc done rest later, made)

StoppedIn-right :
    (plan later before middle after : List Resource)
    → middle ≡ after_plan plan before
    → StoppedIn later middle after
    → StoppedIn (plan ++ later) before after
StoppedIn-right plan later before middle after first (done, rest, whole, made) = (
  plan ++ done,
  rest,
  ap (λ p. plan ++ p) whole ∙ sym (append_assoc plan done rest),
  made ∙ ap (after_plan done) first ∙ sym (after_plan-append plan done before),
)

Outcome-right :
    {B : Type 0} (plan later before middle : List Resource) (ended : Exit B × Log)
    → middle ≡ after_plan plan before
    → Outcome later middle ended
    → Outcome (plan ++ later) before ended
Outcome-right plan later before middle (returned b, log) first h =
    h ∙ ap (after_plan later) first ∙ sym (after_plan-append plan later before)
Outcome-right plan later before middle (failed e, log) first h =
    StoppedIn-right plan later before middle (created log) first h
Outcome-right plan later before middle (panicked, log) first h =
    StoppedIn-right plan later before middle (created log) first h

module _ {A B : Type 0} (plan later : List Resource) (f : A → Act B) where
  module _ (rest : (a : A) → Follows later (f a)) where
    follows_after :
        (before : List Resource) (ended : Exit A × Log)
        → Outcome plan before ended
        → Outcome (plan ++ later) before (((λ (log : Log). ended) >>= f) ended.1)
    follows_after before (returned a, log) h =
        Outcome-right plan later before (created log) (f a log) h ((rest a).at log)
    follows_after before (failed e, log) h = StoppedIn-left plan later before (created log) h
    follows_after before (panicked, log) h = StoppedIn-left plan later before (created log) h

    -- One procedure after another carries out the one plan and then the other.
    pub Follows-bind : (m : Act A) → Follows plan m → Follows (plan ++ later) (m >>= f)
    Follows-bind m k = record { at = λ log. follows_after (created log) (m log) (k.at log) }

    module _ (g : Error → Error) where
      follows_rethrown :
          (before : List Resource) (ended : Exit A × Log)
          → Outcome plan before ended
          → Outcome
              (plan ++ later)
              before
              (on_error (λ (log : Log). ended) (λ e. fail (g e)) f ended.1)
      follows_rethrown before (returned a, log) h =
          Outcome-right plan later before (created log) (f a log) h ((rest a).at log)
      follows_rethrown before (failed e, log) h = StoppedIn-left plan later before (created log) h
      follows_rethrown before (panicked, log) h = StoppedIn-left plan later before (created log) h

      -- The same where an error of the first is wrapped in another.
      pub Follows-rethrow :
          (m : Act A) → Follows plan m → Follows (plan ++ later) (on_error m (λ e. fail (g e)) f)
      Follows-rethrow m k = record { at = λ log. follows_rethrown (created log) (m log) (k.at log) }

-- A plan without steps is carried out by a procedure that creates nothing, however it ends.
Outcome-nil :
    {A : Type 0} (before : List Resource) (ended : Exit A × Log)
    → created ended.1 ≡ before
    → Outcome [] before ended
Outcome-nil before (returned a, log) h = h
Outcome-nil before (failed e, log) h = ([], [], refl, h)
Outcome-nil before (panicked, log) h = ([], [], refl, h)

module _ {A : Type 0} where
  pub Follows-pure : (a : A) → Follows [] (pure a)
  Follows-pure a = record { at = λ log. refl }

  pub Follows-fail : (e : Error) → Follows [] (fail {A = A} e)
  Follows-fail e = record { at = λ log. ([], [], refl, refl) }

  pub Follows-lift : (r : Result A) → Follows [] (lift r)
  Follows-lift (ok a) = Follows-pure a
  Follows-lift (err e) = Follows-fail e

  pub Follows-deref : (o : Option A) → Follows [] (deref o)
  Follows-deref none = record { at = λ log. ([], [], refl, refl) }
  Follows-deref (some a) = Follows-pure a

pub Follows-usable : (client : AzureClient × Option Error) → Follows [] (usable client)
Follows-usable (client, none) = Follows-pure client
Follows-usable (client, some e) = Follows-fail e

module _ (env : Env) where
  pub Follows-quiet : (c : Call) → creation c ≡ none → Follows [] (ask env c)
  Follows-quiet c h = record { at = λ log. rw h }

  -- One creation.
  pub Follows-creation :
      (c : Call) (r : Resource) → creation c ≡ some r → Follows (r ∷ []) (ask env c)
  Follows-creation c r h = record { at = λ log. rw h }

module _ {A B : Type 0} (plan : List Resource) (f : A → Act B)
    (rest : (a : A) → Follows plan (f a)) where
  -- A part that creates nothing, and a part that creates one resource, before the rest.
  pub Follows-after_quiet : (m : Act A) → Follows [] m → Follows plan (m >>= f)
  Follows-after_quiet m k = Follows-bind [] plan f rest m k

  pub Follows-after_one :
      (r : Resource) (m : Act A) → Follows (r ∷ []) m → Follows (r ∷ plan) (m >>= f)
  Follows-after_one r m k = Follows-bind (r ∷ []) plan f rest m k

  pub Follows-after_failing :
      (g : Error → Error) (m : Act A) → Follows [] m → Follows plan (on_error m (λ e. fail (g e)) f)
  Follows-after_failing g m k = Follows-rethrow [] plan f rest g m k

pub ruleset plan_rules = (
  Follows-after_quiet, Follows-after_one, Follows-after_failing, Follows-usable, Follows-lift,
  Follows-deref, Follows-pure, Follows-quiet, Follows-creation, refl,
)

pub Follows-completed :
    {A : Type 0} (env : Env) (client : AzureClient) (start_text wait_text : String)
    (started : Result ℕ) (result : ℕ → Act A)
    → ((future : ℕ) → Follows [] (result future))
    → Follows [] (completed env client start_text wait_text started result)
unfolding completed
Follows-completed env client start_text wait_text started result k =
    Follows-after_failing [] _
      (λ future.
        Follows-after_quiet [] _
          (λ waited.
            Follows-after_failing [] _ (λ _. k future) (wrapped wait_text) _ (Follows-lift waited))
          _ (Follows-quiet env (azure client (wait_for_completion future)) refl))
      (wrapped start_text) _ (Follows-lift started)
