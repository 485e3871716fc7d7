-- ===== src/Std/Base64.antt =====
-- `base64.StdEncoding.EncodeToString`
use azk.Base.{ℕ, ◌+◌, ◌*◌, ◌/◌, ◌%◌, String, ◌<>◌, none, some, List, [], ◌∷◌, get_elem?}
use azk.Std.Bytes.{bytes}

abbrev alphabet : List String
alphabet =
    "A" ∷ "B" ∷ "C" ∷ "D" ∷ "E" ∷ "F" ∷ "G" ∷ "H" ∷ "I" ∷ "J" ∷ "K" ∷ "L" ∷ "M" ∷ "N" ∷ "O" ∷ "P"
    ∷ "Q" ∷ "R" ∷ "S" ∷ "T" ∷ "U" ∷ "V" ∷ "W" ∷ "X" ∷ "Y" ∷ "Z" ∷ "a" ∷ "b" ∷ "c" ∷ "d" ∷ "e" ∷ "f"
    ∷ "g" ∷ "h" ∷ "i" ∷ "j" ∷ "k" ∷ "l" ∷ "m" ∷ "n" ∷ "o" ∷ "p" ∷ "q" ∷ "r" ∷ "s" ∷ "t" ∷ "u" ∷ "v"
    ∷ "w" ∷ "x" ∷ "y" ∷ "z" ∷ "0" ∷ "1" ∷ "2" ∷ "3" ∷ "4" ∷ "5" ∷ "6" ∷ "7" ∷ "8" ∷ "9" ∷ "+" ∷ "/"
    ∷ []

abbrev sextet : ℕ → String
sextet n = elim (get_elem? alphabet (n % 64)) [ none ↦ "" | some c ↦ c ]

encode : List ℕ → String
encode [] = ""
encode (a ∷ []) = sextet (a / 4) <> sextet (a % 4 * 16) <> "=="
encode (a ∷ b ∷ []) = sextet (a / 4) <> sextet (a % 4 * 16 + b / 16) <> sextet (b % 16 * 4) <> "="
encode (a ∷ b ∷ c ∷ rest) =
    sextet (a / 4)
    <> sextet (a % 4 * 16 + b / 16)
    <> sextet (b % 16 * 4 + c / 64)
    <> sextet c
    <> encode rest

unfoldable pub base64 : String → String
unfolding encode bytes
base64 s = encode (bytes s)
