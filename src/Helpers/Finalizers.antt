-- ===== src/Helpers/Finalizers.antt =====
-- `ContainsFinalizer` and `RemoveFinalizer` (helpers/helpers.go).
use azk.Base.{
  String, Bool, true, false, List, [], ◌∷◌, ◌++◌, ◌≡◌, arith, ◌==◌, eq_iff, if◌then◌else◌,
}

unfoldable pub contains_finalizer : List String → String → Bool
contains_finalizer [] s = false
contains_finalizer (item ∷ slice) s = if item == s then true else contains_finalizer slice s

unfoldable pub remove_finalizer : List String → String → List String
remove_finalizer [] s = []
remove_finalizer (item ∷ slice) s =
    if item == s then remove_finalizer slice s else item ∷ remove_finalizer slice s

-- After `RemoveFinalizer` the name is absent, and every other name is present exactly if it was.
pub contains_finalizer-remove_finalizer :
    (slice : List String) (s t : String)
    → contains_finalizer (remove_finalizer slice s) t
      ≡ (if s == t then false else contains_finalizer slice t)
unfolding contains_finalizer remove_finalizer
contains_finalizer-remove_finalizer [] s t = ground arith
contains_finalizer-remove_finalizer (item ∷ slice) s t =
    ground (
      arith,
      eq_iff item s,
      eq_iff item t,
      eq_iff s t,
      contains_finalizer-remove_finalizer slice s t,
    )

pub contains_finalizer-removed :
    (slice : List String) (s : String) → contains_finalizer (remove_finalizer slice s) s ≡ false
contains_finalizer-removed slice s =
    ground (arith, contains_finalizer-remove_finalizer slice s s, eq_iff s s)

pub contains_finalizer-append :
    (slice : List String) (s : String) → contains_finalizer (slice ++ s ∷ []) s ≡ true
unfolding contains_finalizer
contains_finalizer-append [] s = ground (arith, eq_iff s s)
contains_finalizer-append (item ∷ slice) s = ground (arith, contains_finalizer-append slice s)
