-- ===== src/Std/Sort.antt =====
-- `sort.Strings`, which orders by bytes, that is by letters, and `strconv.ParseUint(s, 10, 32)`.
use Prim.Native.Char.{code}
use Prim.Native.String.{compare}
use Prim.Native.Nat.{Ordering}
use azk.Base.{
  ℕ, ◌+◌, ◌*◌, ◌-◌, ◌^◌, String, Bool, true, false, Option, none, some, List, [], ◌∷◌, leb, ltb,
  ◌&&◌, if◌then◌else◌, ◌≡◌, ◌<◌, arith,
}

abbrev text_before : String → String → Bool
text_before s t = elim (compare s t) [ Ordering.gt ↦ false | _ ↦ true ]

insert_text : String → List String → List String
insert_text s [] = s ∷ []
insert_text s (t ∷ texts) =
    let rest = insert_text s texts in if text_before s t then s ∷ t ∷ texts else t ∷ rest

unfoldable pub sort_strings : List String → List String
unfolding insert_text
sort_strings [] = []
sort_strings (s ∷ texts) = insert_text s (sort_strings texts)

-- The number that digits spell after the number before them.
digits_value : ℕ → String → Option ℕ
digits_value n String.[] = some n
digits_value n (String.◌∷◌ c s) =
    let rest = digits_value (n * 10 + (code c - b'0')) s in
    if leb b'0' (code c) && leb (code c) b'9' then rest else none

abbrev within_32_bits : Option ℕ → Option ℕ
within_32_bits none = none
within_32_bits (some n) = if ltb n (2 ^ 32) then some n else none

-- An empty text, another letter than a digit and a value of more than 32 bits are errors.
unfoldable pub parse_uint32 : String → Option ℕ
unfolding digits_value
parse_uint32 String.[] = none
parse_uint32 (String.◌∷◌ c s) = within_32_bits (digits_value 0 (String.◌∷◌ c s))

within_32_bits-bound : (o : Option ℕ) (n : ℕ) → within_32_bits o ≡ some n → n < 2 ^ 32
within_32_bits-bound none n h = ground arith
within_32_bits-bound (some m) n h = ground arith

pub parse_uint32-bound : (i : String) (n : ℕ) → parse_uint32 i ≡ some n → n < 2 ^ 32
unfolding parse_uint32
parse_uint32-bound String.[] n h = ground arith
parse_uint32-bound (String.◌∷◌ c s) n h = within_32_bits-bound (digits_value 0 (String.◌∷◌ c s)) n h
