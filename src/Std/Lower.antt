-- ===== src/Std/Lower.antt =====
-- `strings.ToLower` on texts whose letters are those of ASCII, as the names of Azure's resources are.
use Prim.Native.Char.{Char, code}
use azk.Base.{◌-◌, String, ◌<>◌, none, some, List, [], ◌∷◌, leb, ◌&&◌, get_elem?, if◌then◌else◌}

abbrev lower_alphabet : List String
lower_alphabet =
    "a" ∷ "b" ∷ "c" ∷ "d" ∷ "e" ∷ "f" ∷ "g" ∷ "h" ∷ "i" ∷ "j" ∷ "k" ∷ "l" ∷ "m" ∷ "n" ∷ "o" ∷ "p"
    ∷ "q" ∷ "r" ∷ "s" ∷ "t" ∷ "u" ∷ "v" ∷ "w" ∷ "x" ∷ "y" ∷ "z" ∷ []

lower_char : Char → String
lower_char c =
    if leb b'A' (code c) && leb (code c) b'Z'
    then elim (get_elem? lower_alphabet (code c - b'A')) [ none ↦ "" | some l ↦ l ]
    else String.◌∷◌ c ""

unfoldable pub to_lower : String → String
unfolding lower_char
to_lower String.[] = ""
to_lower (String.◌∷◌ c s) = lower_char c <> to_lower s
