-- ===== src/Changes/Phases/Concluding.antt =====
-- Procedures whose value tells how far the machine has got.
use azk.Base.{String, refl, Bool, true, false, ◌∷◌, ◌≡◌, inl, inr, if◌then◌else◌}
use azk.Api.{Error, ObjectMeta}
use azk.World.{
  Answer, Env, Log, Call, Exit, returned, failed, panicked, Act, pure, ask, on_error, ◌>>=◌,
  record_event,
}
use azk.World.Ends.{DidNotFail, NeverFails, NeverFails-ask}
use azk.Changes.{is_change, ChangesNothing, ChangesNothing-ask}
use azk.Changes.Phases.Moving.{next, At, Somewhere, Moved, MaybeMoved, Moves, MayMove, still}

module _ {Phase : Type 0} (Move : Phase → Call → Phase → Type 0) where
  module _ (start : Phase) (before : Log) where
    module _ {A : Type 0} (Fits : A → Phase → Type 0) where
      -- A procedure that started in the phase does not fail; the value that it returns fits the
      -- phase at its end.
      abbrev pub Concluded : Exit A × Log → Type 0
      Concluded (returned a, log) = (q : Phase) × At Move start before q log × Fits a q
      Concluded (failed e, log) = ⊥
      Concluded (panicked, log) = Somewhere Move start before log

      pub record Concludes (p : Phase) (m : Act A) : Type 0 where
        pub at : (log : Log) → At Move start before p log → Concluded (m log)

      pub Concludes-pure : (p : Phase) (a : A) → Fits a p → Concludes p (pure a)
      Concludes-pure p a fits = record { at = λ log h. (p, h, fits) }

      pub Concludes-if :
          (p : Phase) (b : Bool) (m n : Act A)
          → Concludes p m
          → Concludes p n
          → Concludes p (if b then m else n)
      Concludes-if p true m n km kn = km
      Concludes-if p false m n km kn = kn

      module _ {B : Type 0} (f : B → Act A) where
        module _ (h : Error → Act A) where
          module _ (p : Phase) (rest : (b : B) → Concludes p (f b))
              (otherwise : (e : Error) → Concludes p (h e)) where
            ended_still :
                (ended : Exit B × Log)
                → At Move start before p ended.1
                → Concluded (on_error (λ (log : Log). ended) h f ended.1)
            ended_still (returned b, log) k = (rest b).at log k
            ended_still (failed e, log) k = (otherwise e).at log k
            ended_still (panicked, log) k = (p, k)

            pub Concludes-quiet : (m : Act B) → ChangesNothing m → Concludes p (on_error m h f)
            Concludes-quiet m k = record {
              at = λ log r. ended_still (m log) (still Move start before m p log k r);
            }

            -- One change, looked at whether its answer is an error or not.
            pub Concludes-asked :
                (env : Env) (c : Call) (o : Phase) (g : Answer c → Act B)
                → is_change c ≡ true
                → Move o c p
                → ((answer : Answer c) → ChangesNothing (g answer))
                → Concludes o (on_error (ask env c >>= g) h f)
            Concludes-asked env c o g changed move k = record {
              at = λ log r.
                  let asked : At Move start before p (c ∷ log) = rw changed (next r move) in
                  let got = env.answer log c in
                  ended_still (g got (c ∷ log))
                    (still Move start before (g got) p (c ∷ log) (k got) asked);
            }

          module _ (p q : Phase) (rest : (b : B) → Concludes q (f b))
              (otherwise : (e : Error) (r : Phase) → Concludes r (h e)) where
            ended_on :
                (ended : Exit B × Log)
                → Moved Move start before p q ended
                → Concluded (on_error (λ (log : Log). ended) h f ended.1)
            ended_on (returned b, log) k = (rest b).at log k
            ended_on (failed e, log) (inl k) = (otherwise e p).at log k
            ended_on (failed e, log) (inr k) = (otherwise e q).at log k
            ended_on (panicked, log) (inl k) = (p, k)
            ended_on (panicked, log) (inr k) = (q, k)

            pub Concludes-moves :
                (m : Act B) → Moves Move start before p q m → Concludes p (on_error m h f)
            Concludes-moves m k = record { at = λ log r. ended_on (m log) (k.at log r) }

          module _ (p q : Phase) (rest : (b : B) → Concludes p (f b))
              (later : (b : B) → Concludes q (f b)) (otherwise : (e : Error) → Concludes p (h e))
              (otherwise_later : (e : Error) → Concludes q (h e)) where
            ended_either :
                (ended : Exit B × Log)
                → MaybeMoved Move start before p q ended
                → Concluded (on_error (λ (log : Log). ended) h f ended.1)
            ended_either (returned b, log) (inl k) = (rest b).at log k
            ended_either (returned b, log) (inr k) = (later b).at log k
            ended_either (failed e, log) (inl k) = (otherwise e).at log k
            ended_either (failed e, log) (inr k) = (otherwise_later e).at log k
            ended_either (panicked, log) (inl k) = (p, k)
            ended_either (panicked, log) (inr k) = (q, k)

            pub Concludes-MayMove :
                (m : Act B) → MayMove Move start before p q m → Concludes p (on_error m h f)
            Concludes-MayMove m k = record { at = λ log r. ended_either (m log) (k.at log r) }

        module _ (p : Phase) (rest : (b : B) → Concludes p (f b)) where
          ended_next :
              (ended : Exit B × Log)
              → At Move start before p ended.1
              → DidNotFail ended.0
              → Concluded (((λ (log : Log). ended) >>= f) ended.1)
          ended_next (returned b, log) k n = (rest b).at log k
          ended_next (failed e, log) k n = elim n [ ]
          ended_next (panicked, log) k n = (p, k)

          -- A first part that asks for no change and has no error.
          pub Concludes-after :
              (m : Act B) → ChangesNothing m → NeverFails m → Concludes p (m >>= f)
          Concludes-after m k n = record {
            at = λ log r. ended_next (m log) (still Move start before m p log k r) (n.at log);
          }

      -- An event is recorded, and then the value is returned.
      pub Concludes-recorded :
          (env : Env) (p : Phase) (meta : ObjectMeta) (kind reason text : String) (a : A)
          → Fits a p
          → Concludes p (ask env (record_event meta kind reason text) >>= λ _. pure a)
      Concludes-recorded env p meta kind reason text a fits =
          Concludes-after (λ _. pure a) p (λ _. Concludes-pure p a fits) _
            (ChangesNothing-ask env (record_event meta kind reason text) refl)
            (NeverFails-ask env (record_event meta kind reason text))
