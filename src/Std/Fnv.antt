-- ===== src/Std/Fnv.antt =====
-- `fnv.New32a` and `fnv.New64a`: the hash of the bytes written, modulo 2^32 or 2^64.
use Prim.Native.Nat.{bit_xor}
use azk.Base.{ℕ, ◌*◌, ◌%◌, ◌^◌, String, List, [], ◌∷◌}
use azk.Std.Bytes.{bytes}

fnv1a : ℕ → ℕ → List ℕ → ℕ → ℕ
fnv1a modulus prime [] h = h
fnv1a modulus prime (b ∷ rest) h = fnv1a modulus prime rest (bit_xor h b * prime % modulus)

unfoldable pub fnv32a : String → ℕ
unfolding fnv1a bytes
fnv32a s = fnv1a (2 ^ 32) 16777619 (bytes s) 2166136261

unfoldable pub fnv64a : String → ℕ
unfolding fnv1a bytes
fnv64a s = fnv1a (2 ^ 64) 1099511628211 (bytes s) 14695981039346656037
