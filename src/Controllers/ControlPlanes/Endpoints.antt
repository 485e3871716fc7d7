-- ===== src/Controllers/ControlPlanes/Endpoints.antt =====
-- The list of etcd endpoints that a control plane machine joins with.
use azk.Base.{String, false, List, [], ◌∷◌, ◌<>◌, ◌==◌, ◌≡◌, refl, ap, sym, ◌∙◌, arith, eq_iff, map}
use text.Mathlib.TextLemmas.{append-nil, append_assoc, append-eq-nil_iff}
use azk.Api.{VmStatus}
use azk.Controllers.ControlPlanes.{etcd_endpoints}

-- The texts with a comma between each two of them.
abbrev pub joined : List String → String
joined [] = ""
joined (x ∷ []) = x
joined (x ∷ y ∷ xs) = x <> ("," <> joined (y ∷ xs))

abbrev pub endpoint : VmStatus → String
endpoint node = "https://" <> (node.vm_computer_name <> ":2379")

appended : List VmStatus → String
appended [] = ""
appended (node ∷ nodes) = "," <> (endpoint node <> appended nodes)

nonempty_append : (s t : String) → s == "" ≡ false → (s <> t) == "" ≡ false
nonempty_append s t h =
    ground (arith, eq_iff s "", eq_iff (s <> t) "", append-eq-nil_iff {p = s} {q = t})

joined_lem :
    (node : VmStatus) (nodes : List VmStatus)
    → joined (map endpoint (node ∷ nodes)) ≡ endpoint node <> appended nodes
unfolding appended
joined_lem node [] = sym (append-nil (endpoint node))
joined_lem node (next ∷ nodes) = ap (λ t. endpoint node <> ("," <> t)) (joined_lem next nodes)

etcd_endpoints-appended :
    (nodes : List VmStatus) (text : String)
    → text == "" ≡ false
    → etcd_endpoints nodes text ≡ text <> appended nodes
unfolding etcd_endpoints appended
etcd_endpoints-appended [] text h = sym (append-nil text)
etcd_endpoints-appended (node ∷ nodes) text h =
    let port = node.vm_computer_name <> ":2379" in
    let rest = appended nodes in
    let comma =
      append_assoc ",https://" port rest
      ∙ append_assoc "," "https://" (port <> rest)
      ∙ ap (λ t. "," <> t) (sym (append_assoc "https://" port rest)) in
    rw h (
      etcd_endpoints-appended nodes (text <> (",https://" <> port))
        (nonempty_append text (",https://" <> port) h)
      ∙ append_assoc text (",https://" <> port) rest
      ∙ ap (λ t. text <> t) comma)

-- The endpoints are the https addresses of the machines at the port of etcd, in their order, with a
-- comma between each two, and the empty text if there is no machine.
pub etcd_endpoints_lem :
    (nodes : List VmStatus) → etcd_endpoints nodes "" ≡ joined (map endpoint nodes)
unfolding etcd_endpoints
etcd_endpoints_lem [] = refl
etcd_endpoints_lem (node ∷ nodes) =
    etcd_endpoints-appended nodes (endpoint node)
      (nonempty_append "https://" (node.vm_computer_name <> ":2379") refl)
    ∙ sym (joined_lem node nodes)
