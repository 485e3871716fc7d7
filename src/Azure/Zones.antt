-- ===== src/Azure/Zones.antt =====
-- Which zones `getZones` (azure/vmss.go) finds.
use azk.Base.{
  String, Bool, true, false, Option, none, some, List, [], ◌∷◌, ◌≡◌, refl, sym, ◌∙◌, if◌then◌else◌,
}
use azk.World.{
  Log, Exit, Act, returned, failed, panicked, pure, deref, ResourceSku, LocationInfo, ◌>>=◌,
}
use azk.Std.{equal_fold}
use azk.Azure.Vmss.{info_zones, location_zones, sku_zones, scan_skus, scan_all_skus}

-- The loop's step makes no call, and either ends in one way whatever zones were found before, or
-- keeps those.
data IsStep (f : List String → Act (List String)) : Type 0 where
  replaces :
      (ended : Exit (List String))
      → ((zones : List String) (log : Log) → f zones log ≡ (ended, log))
      → IsStep f
  keeps : ((zones : List String) (log : Log) → f zones log ≡ (returned zones, log)) → IsStep f

module _ (location : String) where
  guarded-IsStep :
      (b : Bool) (found : Option (List String))
      → IsStep (λ zones. if b then deref found else pure zones)
  guarded-IsStep true none = replaces panicked (λ zones log. refl)
  guarded-IsStep true (some zs) = replaces (returned zs) (λ zones log. refl)
  guarded-IsStep false found = keeps (λ zones log. refl)

  info-IsStep :
      (name : Option String) (found : Option (List String))
      → IsStep
          (λ zones. deref name >>= λ n. if equal_fold n location then deref found else pure zones)
  info-IsStep none found = replaces panicked (λ zones log. refl)
  info-IsStep (some n) found = guarded-IsStep (equal_fold n location) found

  info_zones-IsStep : (info : LocationInfo) → IsStep (info_zones location info)
  unfolding info_zones
  info_zones-IsStep info = info-IsStep info.location info.zones

  module _ (f g : List String → Act (List String)) where
    after_fixed :
        (ended : Exit (List String))
        → ((zones : List String) (log : Log) → f zones log ≡ (ended, log))
        → IsStep g
        → IsStep (λ zones. f zones >>= g)
    after_fixed (returned zs) h (replaces e k) =
        replaces e (λ zones log. rw (h zones log) (k zs log))
    after_fixed (returned zs) h (keeps k) =
        replaces (returned zs) (λ zones log. rw (h zones log) (k zs log))
    after_fixed (failed e) h k = replaces (failed e) (λ zones log. rw (h zones log) refl)
    after_fixed panicked h k = replaces panicked (λ zones log. rw (h zones log) refl)

    both-IsStep : IsStep f → IsStep g → IsStep (λ zones. f zones >>= g)
    both-IsStep (replaces ended h) k = after_fixed ended h k
    both-IsStep (keeps h) (replaces e k) = replaces e (λ zones log. rw (h zones log) (k zones log))
    both-IsStep (keeps h) (keeps k) = keeps (λ zones log. rw (h zones log) (k zones log))

  location_zones-IsStep : (infos : List LocationInfo) → IsStep (location_zones location infos)
  unfolding location_zones
  location_zones-IsStep [] = keeps (λ zones log. refl)
  location_zones-IsStep (info ∷ infos) =
      both-IsStep (info_zones location info) (location_zones location infos)
        (info_zones-IsStep info) (location_zones-IsStep infos)

module _ (vm_sku location : String) where
  matching-IsStep :
      (b : Bool) (infos : Option (List LocationInfo))
      → IsStep (λ zones.
        if b then (deref infos >>= λ xs. location_zones location xs zones) else pure zones)
  matching-IsStep true none = replaces panicked (λ zones log. refl)
  matching-IsStep true (some xs) = location_zones-IsStep location xs
  matching-IsStep false infos = keeps (λ zones log. refl)

  named-IsStep :
      (name : Option String) (infos : Option (List LocationInfo))
      → IsStep (λ zones. deref name >>= λ n.
          if equal_fold n vm_sku
          then (deref infos >>= λ xs. location_zones location xs zones)
          else pure zones)
  named-IsStep none infos = replaces panicked (λ zones log. refl)
  named-IsStep (some n) infos = matching-IsStep (equal_fold n vm_sku) infos

  sku_zones-IsStep : (sku : ResourceSku) → IsStep (sku_zones vm_sku location sku)
  unfolding sku_zones
  sku_zones-IsStep sku = named-IsStep sku.name sku.location_info

  scan_skus-kept :
      (first : ResourceSku) (skus : List ResourceSku) (zones : List String) (log : Log)
      → ((zs : List String) (l : Log) → sku_zones vm_sku location first zs l ≡ (returned zs, l))
      → scan_skus vm_sku location first skus zones log ≡ (returned zones, log)
  unfolding scan_skus
  scan_skus-kept first [] zones log h = refl
  scan_skus-kept first (_ ∷ rest) zones log h =
      rw (h zones log) (scan_skus-kept first rest zones log h)

  scan_skus-replaced :
      (first sku : ResourceSku) (rest : List ResourceSku) (zones : List String) (log : Log)
      (ended : Exit (List String))
      → ((zs : List String) (l : Log) → sku_zones vm_sku location first zs l ≡ (ended, l))
      → scan_skus vm_sku location first (sku ∷ rest) zones log ≡ (ended, log)
  unfolding scan_skus
  scan_skus-replaced first sku [] zones log (returned zs) h = rw (h zones log) refl
  scan_skus-replaced first sku (next ∷ rest) zones log (returned zs) h =
      rw (h zones log) (scan_skus-replaced first next rest zs log (returned zs) h)
  scan_skus-replaced first sku rest zones log (failed e) h = rw (h zones log) refl
  scan_skus-replaced first sku rest zones log panicked h = rw (h zones log) refl

  scan_stepped :
      (first : ResourceSku) (rest : List ResourceSku) (log : Log)
      → IsStep (sku_zones vm_sku location first)
      → scan_all_skus vm_sku location (first ∷ rest) log ≡ sku_zones vm_sku location first [] log
  scan_stepped first rest log (replaces ended h) =
      scan_skus-replaced first first rest [] log ended h ∙ sym (h [] log)
  scan_stepped first rest log (keeps h) =
      scan_skus-kept first (first ∷ rest) [] log h ∙ sym (h [] log)

  -- The zones found are those of the first stock keeping unit that Azure lists, and no other one is
  -- looked at: the search over the whole list ends as one look at the first does.
  pub scan_all_skus_first :
      (first : ResourceSku) (rest : List ResourceSku) (log : Log)
      → scan_all_skus vm_sku location (first ∷ rest) log ≡ sku_zones vm_sku location first [] log
  scan_all_skus_first first rest log = scan_stepped first rest log (sku_zones-IsStep first)
