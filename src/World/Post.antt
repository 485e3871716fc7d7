-- ===== src/World/Post.antt =====
-- What holds when a procedure returns a value.
use azk.Api.{Error}
use azk.World.Procedures.{Log, Exit, returned, failed, panicked, Act, fail, on_error, ◌>>=◌}
use azk.World.Keeps.{Keeps}

-- The predicate holds of the value returned and the log at the end, if a value was returned.
abbrev pub Post : {A : Type 0} → (A → Log → Type 0) → Exit A × Log → Type 0
Post Q (returned a, log) = Q a log
Post Q (failed _, log) = Unit
Post Q (panicked, log) = Unit

module _ {A B : Type 0} (R : A → Log → Type 0) (Q : B → Log → Type 0) (f : A → Act B) where
  Post-continued :
      ((a : A) (log : Log) → R a log → Post Q (f a log))
      → (ended : Exit A × Log) → Post R ended
      → Post Q (((λ (log : Log). ended) >>= f) ended.1)
  Post-continued rest (returned a, log) r = rest a log r
  Post-continued rest (failed e, log) r = tt
  Post-continued rest (panicked, log) r = tt

  pub Post-bind :
      (m : Act A) (log : Log)
      → Post R (m log)
      → ((a : A) (after : Log) → R a after → Post Q (f a after))
      → Post Q ((m >>= f) log)
  Post-bind m log r rest = Post-continued rest (m log) r

module _ {A : Type 0} (P : Log → Type 0) (Q : A → Log → Type 0) where
  kept_end :
      (ended : Exit A × Log) → P ended.1 → Post Q ended → Post (λ a log. P log × Q a log) ended
  kept_end (returned a, log) p q = (p, q)
  kept_end (failed e, log) p q = tt
  kept_end (panicked, log) p q = tt

  -- What the procedure keeps holds as well.
  pub Post-kept :
      (m : Act A) (log : Log)
      → Keeps P m
      → P log
      → Post Q (m log)
      → Post (λ a after. P after × Q a after) (m log)
  Post-kept m log k p q = kept_end (m log) (k.at log p) q

-- Whatever the answers are, the predicate holds when the procedure returns a value.
pub record Ensures {A : Type 0} (Q : A → Log → Type 0) (m : Act A) : Type 0 where
  pub at : (log : Log) → Post Q (m log)

module _ {A B : Type 0} (Q : B → Log → Type 0) (f : A → Act B)
    (rest : (a : A) → Ensures Q (f a)) where
  ensured_after : (ended : Exit A × Log) → Post Q (((λ (log : Log). ended) >>= f) ended.1)
  ensured_after (returned a, log) = (rest a).at log
  ensured_after (failed e, log) = tt
  ensured_after (panicked, log) = tt

  pub Ensures-bind : (m : Act A) → Ensures Q (m >>= f)
  Ensures-bind m = record { at = λ log. ensured_after (m log) }

  module _ (h : Error → Act B) (otherwise : (e : Error) → Ensures Q (h e)) where
    ensured_handled : (ended : Exit A × Log) → Post Q (on_error (λ (log : Log). ended) h f ended.1)
    ensured_handled (returned a, log) = (rest a).at log
    ensured_handled (failed e, log) = (otherwise e).at log
    ensured_handled (panicked, log) = tt

    pub Ensures-on_error : (m : Act A) → Ensures Q (on_error m h f)
    Ensures-on_error m = record { at = λ log. ensured_handled (m log) }

pub Ensures-fail : {A : Type 0} (Q : A → Log → Type 0) (e : Error) → Ensures Q (fail {A = A} e)
Ensures-fail Q e = record { at = λ log. tt }
