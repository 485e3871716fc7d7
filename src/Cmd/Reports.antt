-- ===== src/Cmd/Reports.antt =====
-- What the commands that wait (cmd/nodepool/nodepool.go and cmd/controlplane/controlplane.go) report:
-- the shared part, for a call that looks at an object and what is waited for.
use azk.Base.{
  ℕ, suc, String, Bool, true, false, [], ◌∷◌, ◌≡◌, refl, sym, subst, ◌⊎◌, inl, inr, arith,
  if◌then◌else◌,
}
use azk.Api.{Error, Result}
use azk.World.{
  Env, Log, Call, Exit, returned, failed, panicked, Act, fail, on_error, ◌>>=◌, sleep, print,
}
use azk.World.Keeps.{Keeps, keeps_rules}
use azk.Helpers.{get_kubernetes_version, published, after_first}
use azk.Cmd.Polling.{poll_until, kube_client}
use azk.Cmd.Polling.Seen.{fetched, Saw, Asleep, PollOutcome, poll_until_outcome}

abbrev is_sleep : Call → Bool
is_sleep (sleep _) = true
is_sleep _ = false

-- The sleeps so far.
abbrev pub sleeps : Log → ℕ
sleeps [] = 0
sleeps (c ∷ log) = if is_sleep c then suc (sleeps log) else sleeps log

module _ (Q : Log → Type 0) where
  -- A command that returned ends in a log of the kind, and one that failed has not waited.
  abbrev pub Ended : ℕ → Exit (Unit {0}) × Log → Type 0
  Ended before (returned _, after) = Q after
  Ended before (failed e, after) = sleeps after ≡ before
  Ended before (panicked, after) = sleeps after ≡ before

  pub record Reporting (before : ℕ) (m : Act (Unit {0})) : Type 0 where
    pub at : (log : Log) → sleeps log ≡ before → Ended before (m log)

  module _ {A : Type 0} (before : ℕ) (f : A → Act (Unit {0}))
      (rest : (a : A) → Reporting before (f a)) where
    reported_after :
        (ended : Exit A × Log)
        → sleeps ended.1 ≡ before
        → Ended before (((λ (log : Log). ended) >>= f) ended.1)
    reported_after (returned a, log) h = (rest a).at log h
    reported_after (failed e, log) h = h
    reported_after (panicked, log) h = h

    pub Reporting-bind :
        (m : Act A) → Keeps (λ log. sleeps log ≡ before) m → Reporting before (m >>= f)
    Reporting-bind m k = record { at = λ log h. reported_after (m log) (k.at log h) }

    module _ (handler : Error → Act (Unit {0}))
        (otherwise : (e : Error) → Reporting before (handler e)) where
      reported_handled :
          (ended : Exit A × Log)
          → sleeps ended.1 ≡ before
          → Ended before (on_error (λ (log : Log). ended) handler f ended.1)
      reported_handled (returned a, log) h = (rest a).at log h
      reported_handled (failed e, log) h = (otherwise e).at log h
      reported_handled (panicked, log) h = h

      pub Reporting-on_error :
          (m : Act A)
          → Keeps (λ log. sleeps log ≡ before) m
          → Reporting before (on_error m handler f)
      Reporting-on_error m k = record { at = λ log h. reported_handled (m log) (k.at log h) }

  pub Reporting-fail : (before : ℕ) (e : Error) → Reporting before (fail e)
  Reporting-fail before e = record { at = λ log h. h }

module _ (P Q : Log → Type 0) (f : (log : Log) → P log → Q log) (before : ℕ) where
  weakened : (ended : Exit (Unit {0}) × Log) → Ended P before ended → Ended Q before ended
  weakened (returned u, after) h = f after h
  weakened (failed e, after) h = h
  weakened (panicked, after) h = h

  pub Reporting-weaken : (m : Act (Unit {0})) → Reporting P before m → Reporting Q before m
  Reporting-weaken m k = record { at = λ log h. weakened (m log) (k.at log h) }

-- The last line of a command is the one of success, and then the call before it is a `Get` that saw
-- what was waited for, or the one of a timeout, and then the call before it is a sleep.
abbrev pub Reports :
    {A : Type 0} → Call → (Log → Result A) → (A → Bool) → String → String → Env → Log → Type 0
Reports look get reached done timeout env [] = ⊥
Reports look get reached done timeout env (c ∷ rest) =
    ((c ≡ print done) × Saw env look get reached rest)
    ⊎ ((c ≡ print timeout) × Asleep env look get reached rest)

module _ {A : Type 0} (env : Env) (look : Call) (get : Log → Result A) (reached : A → Bool)
    (done timeout : String) where
  module _ (report : Bool × A → Act (Unit {0}))
      (success : (a : A) (log : Log)
        → reached a ≡ true
        → report (true, a) log ≡ (returned tt, print done ∷ log))
      (failure : (a : A) (log : Log)
        → reached a ≡ false
        → report (false, a) log ≡ (returned tt, print timeout ∷ log)) where
    reported :
        (before rounds : ℕ) (log : Log) (ended : Exit (Bool × A) × Log)
        → PollOutcome env look get reached (suc rounds) log ended
        → Ended
            (Reports look get reached done timeout env)
            before
            (((λ (log : Log). ended) >>= report) ended.1)
    reported before rounds log (returned (true, last), after) (there, seen) =
        subst (Ended (Reports look get reached done timeout env) before)
          (sym (success last after there)) (inl (refl, seen))
    reported before rounds log (returned (false, last), after) (not_yet, inl (never, same)) =
        absurd (omega arith)
    reported before rounds log (returned (false, last), after) (not_yet, inr asleep) =
        subst (Ended (Reports look get reached done timeout env) before)
          (sym (failure last after not_yet)) (inr (refl, asleep))
    reported before rounds log (failed e, after) h = absurd h
    reported before rounds log (panicked, after) h = absurd h

    -- The loop and the report after it.
    pub Reporting-poll :
        (before rounds : ℕ) (start : A)
        → reached start ≡ false
        → Reporting
            (Reports look get reached done timeout env)
            before
            (poll_until env (fetched env look get reached) reached (suc rounds) start >>= report)
    Reporting-poll before rounds start not_yet = record {
      at = λ log h.
          reported before rounds log
            (poll_until env (fetched env look get reached) reached (suc rounds) start log)
            (poll_until_outcome env look get reached (suc rounds) start log not_yet);
    }

module _ (env : Env) (before : ℕ) where
  abbrev Sleepless : {A : Type 0} → Act A → Type 0
  Sleepless m = Keeps (λ log. sleeps log ≡ before) m

  Sleepless-after_first : (body : String) → Sleepless (after_first body)
  Sleepless-after_first String.[] = record { at = λ log h. h }
  Sleepless-after_first (String.◌∷◌ c s) = record { at = λ log h. h }

  Sleepless-published : (name : String) → Sleepless (published env name)
  unfolding published
  Sleepless-published name = search (keeps_rules, Sleepless-after_first)

  pub Sleepless-version : (version : String) → Sleepless (get_kubernetes_version env version)
  unfolding get_kubernetes_version
  Sleepless-version version = search (keeps_rules, Sleepless-published)

  pub Sleepless-client : Sleepless (kube_client env)
  unfolding kube_client
  Sleepless-client = search keeps_rules
