-- ===== src/World/Keeps.antt =====
-- Predicates on the log that a procedure keeps, with the rules for the parts of a procedure.
use azk.Base.{ℕ, Option, none, some, List, get_elem?, Bool, true, false, ◌∷◌, if◌then◌else◌}
use azk.Api.{Error, Result, ok, err}
use azk.World.Requests.{Call}
use azk.World.Procedures.{
  deref, index, Log, Env, Exit, returned, failed, panicked, Act, pure, fail, lift, ask, on_error,
  ◌>>=◌,
}

module _ (P : Log → Type 0) where
  -- Whatever the answers are, the predicate holds after the procedure if it held before.
  pub record Keeps {A : Type 0} (m : Act A) : Type 0 where
    pub at : (log : Log) → P log → P (m log).1

  module _ {A B : Type 0} (f : A → Act B) (rest : (a : A) → Keeps (f a)) where
    keeps_after : (ended : Exit A × Log) → P ended.1 → P (((λ (log : Log). ended) >>= f) ended.1).1
    keeps_after (returned a, log) p = (rest a).at log p
    keeps_after (failed e, log) p = p
    keeps_after (panicked, log) p = p

    pub Keeps-bind : (m : Act A) → Keeps m → Keeps (m >>= f)
    Keeps-bind m k = record { at = λ log p. keeps_after (m log) (k.at log p) }

    module _ (h : Error → Act B) (otherwise : (e : Error) → Keeps (h e)) where
      keeps_handled :
          (ended : Exit A × Log) → P ended.1 → P (on_error (λ (log : Log). ended) h f ended.1).1
      keeps_handled (returned a, log) p = (rest a).at log p
      keeps_handled (failed e, log) p = (otherwise e).at log p
      keeps_handled (panicked, log) p = p

      pub Keeps-on_error : (m : Act A) → Keeps m → Keeps (on_error m h f)
      Keeps-on_error m k = record { at = λ log p. keeps_handled (m log) (k.at log p) }

  module _ {A : Type 0} where
    pub Keeps-pure : (a : A) → Keeps (pure a)
    Keeps-pure a = record { at = λ log p. p }

    pub Keeps-fail : (e : Error) → Keeps (fail {A = A} e)
    Keeps-fail e = record { at = λ log p. p }

    pub Keeps-lift : (r : Result A) → Keeps (lift r)
    Keeps-lift (ok a) = Keeps-pure a
    Keeps-lift (err e) = Keeps-fail e

    pub Keeps-if : (b : Bool) (m n : Act A) → Keeps m → Keeps n → Keeps (if b then m else n)
    Keeps-if true m n km kn = km
    Keeps-if false m n km kn = kn

  pub Keeps-deref : {A : Type 0} (o : Option A) → Keeps (deref o)
  Keeps-deref none = record { at = λ log p. p }
  Keeps-deref (some a) = Keeps-pure a

  pub Keeps-index : {A : Type 0} (xs : List A) (i : ℕ) → Keeps (index xs i)
  Keeps-index xs i = Keeps-deref (get_elem? xs i)

  pub Keeps-elim :
      {A : Type 0} (b : Bool) (m n : Act A)
      → Keeps m
      → Keeps n
      → Keeps (elim b [ true ↦ m | false ↦ n ])
  Keeps-elim true m n km kn = km
  Keeps-elim false m n km kn = kn

  pub Keeps-ask : (env : Env) (c : Call) → ((log : Log) → P log → P (c ∷ log)) → Keeps (ask env c)
  Keeps-ask env c k = record { at = k }

pub ruleset keeps_rules = (
  Keeps-pure, Keeps-fail, Keeps-lift, Keeps-deref, Keeps-index, Keeps-if, Keeps-bind,
  Keeps-on_error, Keeps-ask,
)
