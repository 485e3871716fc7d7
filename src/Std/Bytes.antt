-- ===== src/Std/Bytes.antt =====
-- `[]byte(s)` as the UTF-8 bytes of a text, and `fmt.Sprintf("%x", n)`.
use Prim.Native.Char.{code}
use azk.Base.{
  ℕ, zero, suc, ◌+◌, ◌/◌, ◌%◌, String, ◌<>◌, none, some, List, [], ◌∷◌, ◌++◌, ltb, leb, ℤ, pos,
  negsuc, Bool, true, false, ◌&&◌, get_elem?, nat_eq, if◌then◌else◌,
}

utf8 : ℕ → List ℕ
utf8 n =
    if ltb n 0x80
    then n ∷ []
    else if ltb n 0x800
    then (0xc0 + n / 64) ∷ (0x80 + n % 64) ∷ []
    else if ltb n 0x1_0000
    then (0xe0 + n / 4096) ∷ (0x80 + n / 64 % 64) ∷ (0x80 + n % 64) ∷ []
    else (0xf0 + n / 262144) ∷ (0x80 + n / 4096 % 64) ∷ (0x80 + n / 64 % 64) ∷ (0x80 + n % 64) ∷ []

unfoldable pub bytes : String → List ℕ
unfolding utf8
bytes String.[] = []
bytes (String.◌∷◌ c s) = utf8 (code c) ++ bytes s

abbrev pub hex_alphabet : List String
hex_alphabet =
    "0" ∷ "1" ∷ "2" ∷ "3" ∷ "4" ∷ "5" ∷ "6" ∷ "7" ∷ "8" ∷ "9" ∷ "a" ∷ "b" ∷ "c" ∷ "d" ∷ "e" ∷ "f"
    ∷ []

abbrev pub hex_digit : ℕ → String
hex_digit n = elim (get_elem? hex_alphabet (n % 16)) [ none ↦ "" | some d ↦ d ]

-- The digits, least significant last; 16 rounds are enough for 64 bits.
hex_rounds : ℕ → ℕ → String
hex_rounds zero n = ""
hex_rounds (suc rounds) n =
    let rest = hex_rounds rounds (n / 16) in
    if nat_eq (n / 16) 0 then hex_digit n else rest <> hex_digit n

unfoldable pub hex : ℕ → String
unfolding hex_rounds
hex n = hex_rounds 16 n

lower_byte : ℕ → ℕ
lower_byte b = if leb b'A' b && leb b b'Z' then b + 32 else b

same_bytes : List ℕ → List ℕ → Bool
same_bytes [] [] = true
same_bytes (a ∷ s) (b ∷ t) = nat_eq (lower_byte a) (lower_byte b) && same_bytes s t
same_bytes _ _ = false

-- `strings.EqualFold` on names whose letters are those of ASCII.
unfoldable pub equal_fold : String → String → Bool
unfolding bytes lower_byte same_bytes
equal_fold s t = same_bytes (bytes s) (bytes t)

decimal_rounds : ℕ → ℕ → String
decimal_rounds zero n = ""
decimal_rounds (suc rounds) n =
    let rest = decimal_rounds rounds (n / 10) in
    if nat_eq (n / 10) 0 then hex_digit (n % 10) else rest <> hex_digit (n % 10)

-- `%d`; 20 rounds are enough for 64 bits.
unfoldable pub decimal : ℤ → String
unfolding decimal_rounds
decimal (pos n) = decimal_rounds 20 n
decimal (negsuc n) = "-" <> decimal_rounds 20 (suc n)
