-- ===== src/Changes/Phases/Moving.antt =====
-- A machine with phases whose steps are calls, and the procedures that move it by one step.
use azk.Base.{Bool, true, false, ◌∷◌, ◌≡◌, sym, ◌⊎◌, inl, inr, subst, if◌then◌else◌}
use azk.Api.{Error}
use azk.World.{Env, Log, Call, Exit, returned, failed, panicked, Act, ask, on_error, ◌>>=◌}
use azk.Changes.{changes, is_change, ChangesNothing}

module _ {Phase : Type 0} (Move : Phase → Call → Phase → Type 0) where
  -- The machine takes the changes of the longer log, newest first, from one phase to another.
  pub data Reached (start : Phase) (before : Log) : Phase → Log → Type 0 where
    here : Reached start before start before
    next :
        {p q : Phase} {c : Call} {log : Log}
        → Reached start before p log
        → Move p c q
        → Reached start before q (c ∷ log)

  module _ (start : Phase) (before : Log) where
    abbrev pub At : Phase → Log → Type 0
    At p log = Reached start before p (changes log)

    abbrev pub Somewhere : Log → Type 0
    Somewhere log = (p : Phase) × At p log

    -- A procedure that started in the first phase ends in the second one when it returns, and in
    -- one of the two otherwise.
    abbrev pub Moved : {A : Type 0} → Phase → Phase → Exit A × Log → Type 0
    Moved p q (returned _, log) = At q log
    Moved p q (failed _, log) = At p log ⊎ At q log
    Moved p q (panicked, log) = At p log ⊎ At q log

    -- The same where it may also return in the first phase.
    abbrev pub MaybeMoved : {A : Type 0} → Phase → Phase → Exit A × Log → Type 0
    MaybeMoved p q ended = At p ended.1 ⊎ At q ended.1

    pub record Moves {A : Type 0} (p q : Phase) (m : Act A) : Type 0 where
      pub at : (log : Log) → At p log → Moved p q (m log)

    pub record MayMove {A : Type 0} (p q : Phase) (m : Act A) : Type 0 where
      pub at : (log : Log) → At p log → MaybeMoved p q (m log)

    stay : {A : Type 0} (p : Phase) (ended : Exit A × Log) → At p ended.1 → Moved p p ended
    stay p (returned a, log) h = h
    stay p (failed e, log) h = inl h
    stay p (panicked, log) h = inl h

    -- A procedure that asks for no change stays in its phase.
    pub still :
        {A : Type 0} (m : Act A) (p : Phase) (log : Log)
        → ChangesNothing m
        → At p log
        → At p (m log).1
    still m p log k h = subst (Reached start before p) (sym (k.at log)) h

    pub Moves-quiet : {A : Type 0} (p : Phase) (m : Act A) → ChangesNothing m → Moves p p m
    Moves-quiet p m k = record { at = λ log h. stay p (m log) (still m p log k h) }

    -- One change.
    pub Moves-ask :
        (env : Env) (c : Call) (p q : Phase)
        → is_change c ≡ true
        → Move p c q
        → Moves p q (ask env c)
    Moves-ask env c p q changed move = record { at = λ log h. rw changed (next h move) }

    module _ {A : Type 0} (p q : Phase) where
      pub Moves-elim :
          (b : Bool) (m n : Act A)
          → Moves p q m
          → Moves p q n
          → Moves p q (elim b [ true ↦ m | false ↦ n ])
      Moves-elim true m n km kn = km
      Moves-elim false m n km kn = kn

      pub Moves-if :
          (b : Bool) (m n : Act A) → Moves p q m → Moves p q n → Moves p q (if b then m else n)
      Moves-if true m n km kn = km
      Moves-if false m n km kn = kn

    module _ {A B : Type 0} (f : A → Act B) where
      module _ (p q : Phase) (rest : (a : A) → Moves p q (f a)) where
        step_after :
            (ended : Exit A × Log)
            → At p ended.1
            → Moved p q (((λ (log : Log). ended) >>= f) ended.1)
        step_after (returned a, log) h = (rest a).at log h
        step_after (failed e, log) h = inl h
        step_after (panicked, log) h = inl h

        pub Moves-after_quiet : (m : Act A) → ChangesNothing m → Moves p q (m >>= f)
        Moves-after_quiet m k = record { at = λ log h. step_after (m log) (still m p log k h) }

        same : (ended : Exit A × Log) → Moved p p ended → At p ended.1
        same (returned a, log) h = h
        same (failed e, log) (inl h) = h
        same (failed e, log) (inr h) = h
        same (panicked, log) (inl h) = h
        same (panicked, log) (inr h) = h

        pub Moves-after_loop : (m : Act A) → Moves p p m → Moves p q (m >>= f)
        Moves-after_loop m k = record {
          at = λ log h. step_after (m log) (same (m log) (k.at log h));
        }

        module _ (h : Error → Act B) (otherwise : (e : Error) → Moves p q (h e)) where
          step_handled :
              (ended : Exit A × Log)
              → At p ended.1
              → Moved p q (on_error (λ (log : Log). ended) h f ended.1)
          step_handled (returned a, log) k = (rest a).at log k
          step_handled (failed e, log) k = (otherwise e).at log k
          step_handled (panicked, log) k = inl k

          pub Moves-handled_loop : (m : Act A) → Moves p p m → Moves p q (on_error m h f)
          Moves-handled_loop m k = record {
            at = λ log r. step_handled (m log) (same (m log) (k.at log r));
          }

      module _ (p q : Phase) (rest : (a : A) → Moves q q (f a)) where
        then_loop :
            (ended : Exit A × Log)
            → Moved p q ended
            → Moved p q (((λ (log : Log). ended) >>= f) ended.1)
        then_loop (returned a, log) h = looped (f a log) ((rest a).at log h)
          where
            looped : (later : Exit B × Log) → Moved q q later → Moved p q later
            looped (returned b, after) k = k
            looped (failed e, after) (inl k) = inr k
            looped (failed e, after) (inr k) = inr k
            looped (panicked, after) (inl k) = inr k
            looped (panicked, after) (inr k) = inr k
        then_loop (failed e, log) h = h
        then_loop (panicked, log) h = h

        -- A loop in the second phase after the step.
        pub Moves-before_loop : (m : Act A) → Moves p q m → Moves p q (m >>= f)
        Moves-before_loop m k = record { at = λ log h. then_loop (m log) (k.at log h) }

      module _ (p q : Phase) (rest : (a : A) → ChangesNothing (f a)) where
        then_quiet :
            (ended : Exit A × Log)
            → Moved p q ended
            → Moved p q (((λ (log : Log). ended) >>= f) ended.1)
        then_quiet (returned a, log) h = stopped (f a log) (still (f a) q log (rest a) h)
          where
            stopped : (later : Exit B × Log) → At q later.1 → Moved p q later
            stopped (returned b, after) k = k
            stopped (failed e, after) k = inr k
            stopped (panicked, after) k = inr k
        then_quiet (failed e, log) h = h
        then_quiet (panicked, log) h = h

        -- A part without changes after the step.
        pub Moves-before_quiet : (m : Act A) → Moves p q m → Moves p q (m >>= f)
        Moves-before_quiet m k = record { at = λ log h. then_quiet (m log) (k.at log h) }

    module _ {A B : Type 0} (f : A → Act B) (p q : Phase) (rest : (a : A) → MayMove p q (f a)) where
      may_after :
          (ended : Exit A × Log)
          → At p ended.1
          → MaybeMoved p q (((λ (log : Log). ended) >>= f) ended.1)
      may_after (returned a, log) h = (rest a).at log h
      may_after (failed e, log) h = inl h
      may_after (panicked, log) h = inl h

      pub MayMove-after_quiet : (m : Act A) → ChangesNothing m → MayMove p q (m >>= f)
      MayMove-after_quiet m k = record { at = λ log h. may_after (m log) (still m p log k h) }

      module _ (h : Error → Act B) (otherwise : (e : Error) → MayMove p q (h e)) where
        may_handled :
            (ended : Exit A × Log)
            → At p ended.1
            → MaybeMoved p q (on_error (λ (log : Log). ended) h f ended.1)
        may_handled (returned a, log) k = (rest a).at log k
        may_handled (failed e, log) k = (otherwise e).at log k
        may_handled (panicked, log) k = inl k

        pub MayMove-on_error : (m : Act A) → ChangesNothing m → MayMove p q (on_error m h f)
        MayMove-on_error m k = record { at = λ log r. may_handled (m log) (still m p log k r) }

      settled_in : (ended : Exit A × Log) → Moved p p ended → At p ended.1
      settled_in (returned a, log) h = h
      settled_in (failed e, log) (inl h) = h
      settled_in (failed e, log) (inr h) = h
      settled_in (panicked, log) (inl h) = h
      settled_in (panicked, log) (inr h) = h

      pub MayMove-after_loop : (m : Act A) → Moves p p m → MayMove p q (m >>= f)
      MayMove-after_loop m k = record {
        at = λ log h. may_after (m log) (settled_in (m log) (k.at log h));
      }

    may_move :
        {A : Type 0} (p q : Phase) (ended : Exit A × Log) → Moved p q ended → MaybeMoved p q ended
    may_move p q (returned a, log) h = inr h
    may_move p q (failed e, log) h = h
    may_move p q (panicked, log) h = h

    pub MayMove-moves : {A : Type 0} (p q : Phase) (m : Act A) → Moves p q m → MayMove p q m
    MayMove-moves p q m k = record { at = λ log h. may_move p q (m log) (k.at log h) }

    pub MayMove-quiet : {A : Type 0} (p q : Phase) (m : Act A) → ChangesNothing m → MayMove p q m
    MayMove-quiet p q m k = record { at = λ log h. inl (still m p log k h) }

    pub MayMove-elim :
        {A : Type 0} (p q : Phase) (b : Bool) (m n : Act A)
        → MayMove p q m
        → MayMove p q n
        → MayMove p q (elim b [ true ↦ m | false ↦ n ])
    MayMove-elim p q true m n km kn = km
    MayMove-elim p q false m n km kn = kn

    pub MayMove-if :
        {A : Type 0} (p q : Phase) (b : Bool) (m n : Act A)
        → MayMove p q m
        → MayMove p q n
        → MayMove p q (if b then m else n)
    MayMove-if p q true m n km kn = km
    MayMove-if p q false m n km kn = kn
