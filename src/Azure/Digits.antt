-- ===== src/Azure/Digits.antt =====
-- What `GenerateRandomHexString` (helpers/helpers.go) makes.
use Prim.Native.String.{count}
use text.Mathlib.TextLemmas.{length-append}
use azk.Base.{
  ℕ, zero, suc, ◌+◌, ◌<◌, String, ◌<>◌, Option, none, some, List, [], ◌∷◌, ◌≡◌, refl, subst, arith,
  length, get_elem?, All,
}
use azk.World.{Env, Log, Exit, returned, failed, panicked, rand_intn}
use azk.Std.{hex_alphabet}
use azk.Azure.CustomData.{random_digits, generate_random_hex_string}

abbrev OneCharacter : Option String → Type 0
OneCharacter none = ⊥
OneCharacter (some d) = count d ≡ 1

index-OneCharacter :
    (xs : List String) (i : ℕ)
    → All (λ d. count d ≡ 1) xs
    → i < length xs
    → OneCharacter (get_elem? xs i)
index-OneCharacter [] i h below = absurd (omega (arith, below))
index-OneCharacter (x ∷ xs) zero (one, h) below = one
index-OneCharacter (x ∷ xs) (suc i) (one, h) below =
    index-OneCharacter xs i h (omega (arith, below))

hex_alphabet-OneCharacter : (i : ℕ) → i < 16 → OneCharacter (get_elem? hex_alphabet i)
hex_alphabet-OneCharacter i below = index-OneCharacter hex_alphabet i (ground arith) below

module _ (env : Env) where
  -- A text of so many characters was returned, after as many draws of a number.
  abbrev pub HasDigits : ℕ → ℕ → Log → Exit String × Log → Type 0
  HasDigits characters draws log (returned text, after) =
      (count text ≡ characters) × (length after ≡ length log + draws)
  HasDigits characters draws log (failed _, after) = ⊥
  HasDigits characters draws log (panicked, after) = ⊥

  one_more :
      (text d : String) (n : ℕ) (log : Log) (ended : Exit String × Log)
      → count d ≡ 1
      → HasDigits (count (text <> d) + n) n (rand_intn 16 ∷ log) ended
      → HasDigits (count text + suc n) (suc n) log ended
  one_more text d n log (returned t, after) one (h, calls) =
      (omega (arith, length-append text d), omega arith)
  one_more text d n log (failed _, after) one h = elim h [ ]
  one_more text d n log (panicked, after) one h = elim h [ ]

  -- One digit, from what the later digits make.
  drawn-HasDigits :
      (n : ℕ) (text : String) (log : Log)
      → ((t : String) (l : Log) → HasDigits (count t + n) n l (random_digits env n t l))
      → (drawn : Option String) → get_elem? hex_alphabet (env.answer log (rand_intn 16)) ≡ drawn
      → OneCharacter drawn
      → HasDigits (count text + suc n) (suc n) log (random_digits env (suc n) text log)
  unfolding random_digits
  drawn-HasDigits n text log later (some d) h one =
      rw h (one_more text d n log _ one (later (text <> d) (rand_intn 16 ∷ log)))
  drawn-HasDigits n text log later none h one = elim one [ ]

  random_digits-HasDigits :
      ((l : Log) → env.answer l (rand_intn 16) < 16)
      → (n : ℕ) (text : String) (log : Log)
      → HasDigits (count text + n) n log (random_digits env n text log)
  unfolding random_digits
  random_digits-HasDigits below zero text log = (omega arith, omega arith)
  random_digits-HasDigits below (suc n) text log =
      drawn-HasDigits n text log (random_digits-HasDigits below n) _ refl
        (hex_alphabet-OneCharacter (env.answer log (rand_intn 16)) (below log))

  -- When the random numbers are below their bound, as documented for `rand.Intn`, a text of the length
  -- asked for is returned, without a panic, after as many draws.
  pub generate_random_hex_string-HasDigits :
      ((l : Log) → env.answer l (rand_intn 16) < 16)
      → (n : ℕ) (log : Log) → HasDigits n n log (generate_random_hex_string env n log)
  unfolding generate_random_hex_string
  generate_random_hex_string-HasDigits below n log =
      let whole : 0 + n ≡ n = omega arith in
      subst (λ m. HasDigits m n log (random_digits env n "" log)) whole
        (random_digits-HasDigits below n "" log)
