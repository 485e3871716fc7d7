-- ===== src/World/Ends.antt =====
-- Procedures that end without a panic, and those that end without an error as well, with the rules
-- for the parts of a procedure.
use azk.Base.{ℕ, Option, none, some, get_elem?, Bool, true, false, List, if◌then◌else◌}
use azk.Api.{Error, Result, ok, err}
use azk.World.Requests.{Call}
use azk.World.Procedures.{
  deref, index, recover, Log, Env, Exit, returned, failed, panicked, Act, pure, lift, ask, on_error,
  ◌>>=◌,
}

module _ {A : Type 0} where
  abbrev pub DidNotPanic : Exit A → Type 0
  DidNotPanic (returned _) = Unit
  DidNotPanic (failed _) = Unit
  DidNotPanic panicked = ⊥

  abbrev pub DidNotFail : Exit A → Type 0
  DidNotFail (returned _) = Unit
  DidNotFail (failed _) = ⊥
  DidNotFail panicked = Unit

  abbrev pub DidReturn : Exit A → Type 0
  DidReturn (returned _) = Unit
  DidReturn (failed _) = ⊥
  DidReturn panicked = ⊥

pub record NeverFails {A : Type 0} (m : Act A) : Type 0 where
  pub at : (log : Log) → DidNotFail (m log).0

pub record NeverPanics {A : Type 0} (m : Act A) : Type 0 where
  pub at : (log : Log) → DidNotPanic (m log).0

pub record AlwaysReturns {A : Type 0} (m : Act A) : Type 0 where
  pub at : (log : Log) → DidReturn (m log).0

module _ {A B : Type 0} (f : A → Act B) where
  module _ (rest : (a : A) → NeverPanics (f a)) where
    bind_end :
        (ended : Exit A × Log)
        → DidNotPanic ended.0
        → DidNotPanic (((λ (log : Log). ended) >>= f) ended.1).0
    bind_end (returned a, log) h = (rest a).at log
    bind_end (failed e, log) h = h
    bind_end (panicked, log) h = elim h [ ]

    pub NeverPanics-bind : (m : Act A) → NeverPanics m → NeverPanics (m >>= f)
    NeverPanics-bind m k = record { at = λ log. bind_end (m log) (k.at log) }

  module _ (rest : (a : A) → AlwaysReturns (f a)) where
    module _ (h : Error → Act B) (otherwise : (e : Error) → AlwaysReturns (h e)) where
      handled_end :
          (ended : Exit A × Log)
          → DidNotPanic ended.0
          → DidReturn (on_error (λ (log : Log). ended) h f ended.1).0
      handled_end (returned a, log) k = (rest a).at log
      handled_end (failed e, log) k = (otherwise e).at log
      handled_end (panicked, log) k = elim k [ ]

      pub AlwaysReturns-on_error : (m : Act A) → NeverPanics m → AlwaysReturns (on_error m h f)
      AlwaysReturns-on_error m k = record { at = λ log. handled_end (m log) (k.at log) }

module _ {A : Type 0} where
  pub NeverPanics-pure : (a : A) → NeverPanics (pure a)
  NeverPanics-pure a = record { at = λ log. tt }

  pub NeverPanics-lift : (r : Result A) → NeverPanics (lift r)
  NeverPanics-lift (ok a) = record { at = λ log. tt }
  NeverPanics-lift (err e) = record { at = λ log. tt }

  pub AlwaysReturns-pure : (a : A) → AlwaysReturns (pure a)
  AlwaysReturns-pure a = record { at = λ log. tt }

  pub AlwaysReturns-if :
      (b : Bool) (m n : Act A)
      → AlwaysReturns m
      → AlwaysReturns n
      → AlwaysReturns (if b then m else n)
  AlwaysReturns-if true m n km kn = km
  AlwaysReturns-if false m n km kn = kn

pub NeverPanics-ask : (env : Env) (c : Call) → NeverPanics (ask env c)
NeverPanics-ask env c = record { at = λ log. tt }

module _ {A B : Type 0} (f : A → Act B) (rest : (a : A) → NeverFails (f a)) where
  bind_unfailed :
      (ended : Exit A × Log)
      → DidNotFail ended.0
      → DidNotFail (((λ (log : Log). ended) >>= f) ended.1).0
  bind_unfailed (returned a, log) h = (rest a).at log
  bind_unfailed (failed e, log) h = elim h [ ]
  bind_unfailed (panicked, log) h = tt

  pub NeverFails-bind : (m : Act A) → NeverFails m → NeverFails (m >>= f)
  NeverFails-bind m k = record { at = λ log. bind_unfailed (m log) (k.at log) }

  module _ (h : Error → Act B) (otherwise : (e : Error) → NeverFails (h e)) where
    handled_unfailed :
        (ended : Exit A × Log) → DidNotFail (on_error (λ (log : Log). ended) h f ended.1).0
    handled_unfailed (returned a, log) = (rest a).at log
    handled_unfailed (failed e, log) = (otherwise e).at log
    handled_unfailed (panicked, log) = tt

    pub NeverFails-on_error : (m : Act A) → NeverFails (on_error m h f)
    NeverFails-on_error m = record { at = λ log. handled_unfailed (m log) }

module _ {A : Type 0} where
  pub NeverFails-pure : (a : A) → NeverFails (pure a)
  NeverFails-pure a = record { at = λ log. tt }

  pub NeverFails-deref : (o : Option A) → NeverFails (deref o)
  NeverFails-deref none = record { at = λ log. tt }
  NeverFails-deref (some a) = record { at = λ log. tt }

  pub NeverFails-index : (xs : List A) (i : ℕ) → NeverFails (index xs i)
  NeverFails-index xs i = NeverFails-deref (get_elem? xs i)

  pub NeverFails-if :
      (b : Bool) (m n : Act A) → NeverFails m → NeverFails n → NeverFails (if b then m else n)
  NeverFails-if true m n km kn = km
  NeverFails-if false m n km kn = kn

  recovered_end :
      (zero_value : A) (ended : Exit A × Log)
      → DidNotFail ended.0
      → DidReturn (recover zero_value (λ (log : Log). ended) ended.1).0
  recovered_end zero_value (returned a, log) h = tt
  recovered_end zero_value (failed e, log) h = elim h [ ]
  recovered_end zero_value (panicked, log) h = tt

  pub AlwaysReturns-recover :
      (zero_value : A) (m : Act A) → NeverFails m → AlwaysReturns (recover zero_value m)
  AlwaysReturns-recover zero_value m k = record {
    at = λ log. recovered_end zero_value (m log) (k.at log);
  }

pub NeverFails-ask : (env : Env) (c : Call) → NeverFails (ask env c)
NeverFails-ask env c = record { at = λ log. tt }

pub ruleset unfailing_rules = (
  NeverFails-pure, NeverFails-deref, NeverFails-index, NeverFails-if, NeverFails-bind,
  NeverFails-on_error, NeverFails-ask, AlwaysReturns-recover,
)

pub ruleset ending_rules = (
  NeverPanics-pure, NeverPanics-lift, NeverPanics-ask, NeverPanics-bind, AlwaysReturns-pure,
  AlwaysReturns-if, AlwaysReturns-on_error,
)
