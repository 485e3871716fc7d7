-- ===== src/Bootstrap/Filling.antt =====
-- What `UpdateSpec` (bootstrap/spec.go) makes of a spec.
use azk.Base.{String, ◌<>◌, List, [], ◌∷◌, ◌≡◌, refl, ◌⊎◌, inl, inr, arith, eq_iff}
use azk.Api.{Spec}
use azk.World.{Act, pure, lift, ◌>>=◌, read_file, Env, Log, Exit, returned, failed, panicked}
use azk.World.Post.{Post, Post-bind}
use azk.Bootstrap.Specs.{read_if_empty, hashes_if_none, update_spec, tmp_dir_name}
use azk.Bootstrap.Certificates.{get_discovery_hashes}

-- A text that was there is as it was.
abbrev pub Kept : String → String → Type 0
Kept before after = (before ≡ "") ⊎ (after ≡ before)

abbrev pub KeptHashes : List String → List String → Type 0
KeptHashes before after = (before ≡ []) ⊎ (after ≡ before)

-- The spec with other texts in the fields that `UpdateSpec` reads from files.
abbrev pub with_files :
    Spec
    → String
    → String
    → String
    → String
    → String
    → String
    → String
    → String
    → String
    → List String
    → Spec
with_files s ca ca_key sa_key sa_pub front_ca front_ca_key etcd_ca etcd_ca_key admin hashes =
    record s {
      ca_certificate = ca;
      ca_certificate_key = ca_key;
      service_account_key = sa_key;
      service_account_pub = sa_pub;
      front_proxy_ca_certificate = front_ca;
      front_proxy_ca_certificate_key = front_ca_key;
      etcd_ca_certificate = etcd_ca;
      etcd_ca_certificate_key = etcd_ca_key;
      admin_kubeconfig = admin;
      discovery_hashes = hashes;
    }

-- Only the ten fields that `UpdateSpec` reads from files may differ, and only those that were empty.
abbrev pub FilledFrom : Spec → Spec → Type 0
FilledFrom s t =
    (t
      ≡ with_files s t.ca_certificate t.ca_certificate_key t.service_account_key
          t.service_account_pub t.front_proxy_ca_certificate t.front_proxy_ca_certificate_key
          t.etcd_ca_certificate t.etcd_ca_certificate_key t.admin_kubeconfig t.discovery_hashes)
    × Kept s.ca_certificate t.ca_certificate
    × Kept s.ca_certificate_key t.ca_certificate_key
    × Kept s.service_account_key t.service_account_key
    × Kept s.service_account_pub t.service_account_pub
    × Kept s.front_proxy_ca_certificate t.front_proxy_ca_certificate
    × Kept s.front_proxy_ca_certificate_key t.front_proxy_ca_certificate_key
    × Kept s.etcd_ca_certificate t.etcd_ca_certificate
    × Kept s.etcd_ca_certificate_key t.etcd_ca_certificate_key
    × Kept s.admin_kubeconfig t.admin_kubeconfig
    × KeptHashes s.discovery_hashes t.discovery_hashes

anything : {A : Type 0} (ended : Exit A × Log) → Post (λ a after. Unit) ended
anything (returned a, log) = tt
anything (failed e, log) = tt
anything (panicked, log) = tt

module _ (env : Env) where
  read_if_empty-Kept :
      (present file : String) (log : Log)
      → Post (λ a after. Kept present a) (read_if_empty env present file log)
  unfolding read_if_empty
  read_if_empty-Kept present file log = ground (
    arith,
    eq_iff present "",
    anything (lift (env.answer log (read_file file)) (read_file file ∷ log)),
  )

  hashes_if_none-KeptHashes :
      (present : List String) (file : String) (log : Log)
      → Post (λ a after. KeptHashes present a) (hashes_if_none env present file log)
  unfolding hashes_if_none
  hashes_if_none-KeptHashes [] file log = because_empty (get_discovery_hashes env file log)
    where
      because_empty : (ended : Exit (List String) × Log) → Post (λ a after. KeptHashes [] a) ended
      because_empty (returned a, log) = inl refl
      because_empty (failed e, log) = tt
      because_empty (panicked, log) = tt
  hashes_if_none-KeptHashes (h ∷ hashes) file log = inr refl

  -- One field after another.
  read_then :
      {B : Type 0} (Q : B → Log → Type 0) (present file : String) (f : String → Act B) (log : Log)
      → ((a : String) (after : Log) → Kept present a → Post Q (f a after))
      → Post Q ((read_if_empty env present file >>= f) log)
  read_then Q present file f log rest =
      Post-bind (λ a after. Kept present a) Q f (read_if_empty env present file) log
        (read_if_empty-Kept present file log) rest

  -- `UpdateSpec` fills in empty fields only: when it returns, each field that was not empty is as it
  -- was, and so is every field that it does not read from a file.
  pub update_spec-FilledFrom :
      (spec : Spec) (log : Log) → Post (λ t after. FilledFrom spec t) (update_spec env spec log)
  unfolding update_spec
  update_spec-FilledFrom spec log =
      let Q : Spec → Log → Type 0 = λ t after. FilledFrom spec t in
      read_then Q _ _ _ log λ f1 l1 k1. read_then Q _ _ _ l1 λ f2 l2 k2.
        read_then Q _ _ _ l2 λ f3 l3 k3. read_then Q _ _ _ l3 λ f4 l4 k4.
          read_then Q _ _ _ l4 λ f5 l5 k5. read_then Q _ _ _ l5 λ f6 l6 k6.
            read_then Q _ _ _ l6 λ f7 l7 k7. read_then Q _ _ _ l7 λ f8 l8 k8.
              read_then Q _ _ _ l8 λ f9 l9 k9.
                Post-bind (λ a after. KeptHashes spec.discovery_hashes a) Q
                  (λ hashes. pure (with_files spec f1 f2 f3 f4 f5 f6 f7 f8 f9 hashes))
                  (hashes_if_none env spec.discovery_hashes
                    (tmp_dir_name spec <> "/kubeconfigs/admin.conf"))
                  l9 (hashes_if_none-KeptHashes spec.discovery_hashes _ l9)
                  λ f10 l10 k10.
                    let filled : FilledFrom spec (with_files spec f1 f2 f3 f4 f5 f6 f7 f8 f9 f10) =
                      (refl, k1, k2, k3, k4, k5, k6, k7, k8, k9, k10) in
                    filled
