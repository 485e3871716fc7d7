-- ===== src/Cmd/Flow/Counts.antt =====
-- The number of machines that `RunFlow` (cmd/flow/flow.go) makes of the text that it accepted.
use azk.Base.{
  ℕ, ◌-◌, ◌^◌, ◌≤◌, ◌<◌, String, Option, none, some, ◌≡◌, ◌⊎◌, [], ◌∷◌, false, ℤ, pos, negsuc,
}
use azk.Std.{parse_uint32}
use azk.Api.{Error}
use azk.World.{Env, Log, Call, Exit, returned, failed, panicked, prompt, entered}
use azk.World.Post.{Post}
use azk.Cmd.Clusters.{CreateOptions, run_create}
use azk.Cmd.Flow.{check_count}

-- The number that a text spells, as an integer of 32 bits with a sign.
abbrev pub Signed : ℕ → ℤ → Type 0
Signed n count =
    (n < 2 ^ 32)
    × (((n < 2 ^ 31) × (count ≡ pos n)) ⊎ ((2 ^ 31 ≤ n) × (count ≡ negsuc (2 ^ 32 - 1 - n))))

-- What the count is, by whether its text is one that the prompt accepts.
abbrev CountOf : String → Option Error → ℤ → Type 0
CountOf i none count = (n : ℕ) × (parse_uint32 i ≡ some n) × Signed n count
CountOf i (some e) count = Unit

module _ (env : Env) where
  abbrev count_prompt : Call
  count_prompt = prompt "Node Pool Count" check_count false

  -- The last call is the prompt for the count, and the count is that of the text entered there.
  abbrev pub Counted : CreateOptions → Log → Type 0
  Counted o [] = ⊥
  Counted o (c ∷ asked) =
      (c ≡ count_prompt)
      × ((i : String) × (env.answer asked count_prompt ≡ entered i)
          × CountOf i (check_count i) o.node_pool_count)

  abbrev DidNotReturn : Exit (Unit {0}) → Type 0
  DidNotReturn (returned _) = ⊥
  DidNotReturn (failed _) = Unit
  DidNotReturn panicked = Unit

  -- The flow ends as the creation with these options does, or ends before it.
  abbrev pub FlowOutcome : Exit (Unit {0}) × Log → Type 0
  FlowOutcome ended =
      ((o : CreateOptions) × (asked : Log) × Counted o asked × (ended ≡ run_create env o asked))
      ⊎ DidNotReturn ended.0
