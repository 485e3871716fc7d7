-- ===== src/Cmd/Polling/Seen.antt =====
-- What the loop of the commands (`for i := 0; i < n; i++` around a `Get` in cmd/nodepool,
-- cmd/controlplane and cmd/cluster) has seen when it ends.
use azk.Base.{
  ℕ, zero, suc, ◌+◌, ◌*◌, ◌≤◌, ◌<◌, Bool, true, false, [], ◌∷◌, ◌≡◌, refl, sym, subst, ◌⊎◌, inl,
  inr, arith, length, Bool-cases,
}
use azk.Api.{Result, ok, err}
use azk.World.{Env, Log, Call, Exit, returned, failed, panicked, Act, sleep}
use azk.Cmd.Polling.{last_seen, shows, poll_until}

module _ {A : Type 0} (env : Env) (look : Call) (get : Log → Result A) (reached : A → Bool) where
  -- One `Get`: the call, and its answer.
  abbrev pub fetched : Act (Result A)
  fetched log = (returned (get log), look ∷ log)

  abbrev Shown : Result A → Type 0
  Shown (ok found) = reached found ≡ true
  Shown (err e) = ⊥

  -- The last call looked at the object, and saw what was waited for.
  abbrev pub Saw : Log → Type 0
  Saw [] = ⊥
  Saw (c ∷ rest) = (c ≡ look) × Shown (get rest)

  abbrev pub Asleep : Log → Type 0
  Asleep [] = ⊥
  Asleep (c ∷ rest) = c ≡ sleep 30

  abbrev pub PollOutcome : ℕ → Log → Exit (Bool × A) × Log → Type 0
  PollOutcome rounds log (returned (true, last), after) = (reached last ≡ true) × Saw after
  PollOutcome rounds log (returned (false, last), after) =
      (reached last ≡ false) × (((rounds ≡ 0) × (after ≡ log)) ⊎ Asleep after)
  PollOutcome rounds log (failed e, after) = ⊥
  PollOutcome rounds log (panicked, after) = ⊥

  PollOutcome-later :
      (rounds : ℕ) (start log : Log) (ended : Exit (Bool × A) × Log)
      → PollOutcome rounds (sleep 30 ∷ log) ended
      → PollOutcome (suc rounds) start ended
  PollOutcome-later rounds start log (returned (true, last), after) h = h
  PollOutcome-later rounds start log (returned (false, last), after) (not_yet, inl (never, same)) =
      (not_yet, inr (subst Asleep (sym same) refl))
  PollOutcome-later rounds start log (returned (false, last), after) (not_yet, inr h) =
      (not_yet, inr h)
  PollOutcome-later rounds start log (failed e, after) h = h
  PollOutcome-later rounds start log (panicked, after) h = h

  poll_until_round :
      (rounds : ℕ) (before : A) (log : Log)
      → reached before ≡ false
      → ((a : A) (l : Log)
          → reached a ≡ false
          → PollOutcome rounds l (poll_until env fetched reached rounds a l))
      → (answer : Result A) → get log ≡ answer
      → PollOutcome (suc rounds) log (poll_until env fetched reached (suc rounds) before log)
  unfolding poll_until
  poll_until_round rounds before log not_yet later (err e) h =
      let slept = sleep 30 ∷ look ∷ log in
      ground (
        arith,
        PollOutcome-later rounds log (look ∷ log)
            (poll_until env fetched reached rounds before slept) (later before slept not_yet),
      )
  poll_until_round rounds before log not_yet later (ok found) h =
      let slept = sleep 30 ∷ look ∷ log in
      elim (Bool-cases (reached found)) [
        | inl now ↦ ground arith
        | inr not_now ↦ ground (
          arith,
          PollOutcome-later rounds log (look ∷ log)
              (poll_until env fetched reached rounds found slept) (later found slept not_now),
        )
      ]

  -- Started with an object that is not there yet, the loop never fails. It is left early exactly when
  -- the `Get` that is then the last call saw what was waited for; otherwise it ends with a sleep,
  -- unless it has no round, and the object as last seen is not there yet.
  pub poll_until_outcome :
      (rounds : ℕ) (before : A) (log : Log)
      → reached before ≡ false
      → PollOutcome rounds log (poll_until env fetched reached rounds before log)
  unfolding poll_until
  poll_until_outcome zero before log not_yet = (not_yet, inl (refl, refl))
  poll_until_outcome (suc rounds) before log not_yet =
      poll_until_round rounds before log not_yet (λ a l n. poll_until_outcome rounds a l n) _ refl

  -- The log when so many rounds have gone by.
  abbrev pub waited : ℕ → Log → Log
  waited zero log = log
  waited (suc rounds) log = waited rounds (sleep 30 ∷ look ∷ log)

  abbrev pub LeftEarly : ℕ → Log → Exit (Bool × A) × Log → Type 0
  LeftEarly k log (returned (left, last), after) =
      (left ≡ true) × (length after ≤ length log + 2 * k + 1)
  LeftEarly k log (failed e, after) = ⊥
  LeftEarly k log (panicked, after) = ⊥

  LeftEarly-later :
      (k : ℕ) (log : Log) (ended : Exit (Bool × A) × Log)
      → LeftEarly k (sleep 30 ∷ look ∷ log) ended
      → LeftEarly (suc k) log ended
  LeftEarly-later k log (returned (left, last), after) (early, soon) = (early, omega arith)
  LeftEarly-later k log (failed e, after) h = h
  LeftEarly-later k log (panicked, after) h = h

  -- If the object is there by round k, below the number of rounds, the loop is left early, at the
  -- latest in that round.
  pub poll_until_live :
      (rounds k : ℕ) (before found : A) (log : Log)
      → k < rounds
      → get (waited k log) ≡ ok found
      → reached found ≡ true
      → LeftEarly k log (poll_until env fetched reached rounds before log)
  unfolding poll_until
  poll_until_live zero k before found log below h there = absurd (omega arith)
  poll_until_live (suc rounds) zero before found log below h there = ground arith
  poll_until_live (suc rounds) (suc k) before found log below h there =
      elim (Bool-cases (shows reached (get log))) [
        | inl now ↦ ground arith
        | inr not_now ↦ ground (
          arith,
          LeftEarly-later k log
              (poll_until env fetched reached rounds (last_seen before (get log))
                (sleep 30 ∷ look ∷ log))
              (poll_until_live rounds k (last_seen before (get log)) found (sleep 30 ∷ look ∷ log)
                (omega arith) h there),
        )
      ]
