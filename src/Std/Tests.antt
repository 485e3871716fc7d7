-- ===== src/Std/Tests.antt =====
-- The standard library's functions at known values.
use azk.Base.{◌≡◌, refl}
use azk.Std.Bytes.{hex}
use azk.Std.Fnv.{fnv32a, fnv64a}
use azk.Std.Base64.{base64}

fnv32a_empty : hex (fnv32a "") ≡ "811c9dc5"
unfolding hex fnv32a
fnv32a_empty = refl

fnv64a_a : hex (fnv64a "a") ≡ "af63dc4c8601ec8c"
unfolding hex fnv64a
fnv64a_a = refl

base64_light : base64 "light work." ≡ "bGlnaHQgd29yay4="
unfolding base64
base64_light = refl
