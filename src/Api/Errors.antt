-- ===== src/Api/Errors.antt =====
-- Go's `error` values, the pair of a value and an error, and what `fmt.Errorf` makes.
use azk.Base.{ℕ, String, ℤ}

-- `library n` is an error made outside the program, of which it knows nothing;
-- `detailed_error code` is an `autorest.DetailedError` with its HTTP status; the
-- others are the texts of `fmt.Errorf`, one of them with its two numbers.
pub data Error : Type 0 where
  library : ℕ → Error
  detailed_error : ℕ → Error
  message : String → Error
  nodes_not_ready : ℕ → ℤ → Error
  wrapped : String → Error → Error

-- `(T, error)` where exactly one of the two is meaningful.
pub data Result {ℓ} (A : Type ℓ) : Type ℓ where
  ok : A → Result A
  err : Error → Result A
