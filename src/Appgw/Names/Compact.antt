-- ===== src/Appgw/Names/Compact.antt =====
-- pkg/appgw/internaltypes.go: the host names of a listener, got and set again.
use application_gateway_kube.Common.{
  ℕ, ◌<◌, Text, List, [], ◌∷◌, ◌≡◌, refl, ap, ◌∙◌, is_nil, Bool, false, if◌then◌else◌, zero, suc,
  All,
}
use application_gateway_kube.Appgw.Names.{
  ListenerIdentifier, take, set_names, set_host_names, non_empty, get_host_names,
}
use application_gateway_kube.Appgw.Names.HostNames.{empty_places, get_host_names-set_host_names}

-- No name is empty.
abbrev pub AreNamed : List Text → Type 0
AreNamed names = All (λ (name : Text). is_nil name ≡ false) names

-- Setting the host names that the identifier has gives them back.
abbrev pub IsCompact : ListenerIdentifier → Type 0
IsCompact id = set_names [] (empty_places 5) (get_host_names id) ≡ (id.host_name, id.host_names)

-- The identifier has host names that can be set again, the kind of IP, and the number of a port.
abbrev pub IsUsual : Bool → ListenerIdentifier → Type 0
IsUsual is_private id = IsCompact id × (id.use_private_ip ≡ is_private) × (id.frontend_port < 65536)

set_names-take :
    (host : Text) (n : ℕ) (names : List Text)
    → set_names host (empty_places n) (take n names) ≡ set_names host (empty_places n) names
unfolding set_names take
set_names-take host zero names = refl
set_names-take host (suc n) [] = refl
set_names-take host (suc n) (name ∷ names) =
    rw (set_names-take (if is_nil host then name else host) n names) refl

non_empty_named : (names : List Text) → AreNamed names → non_empty names ≡ names
unfolding non_empty
non_empty_named [] h = refl
non_empty_named (name ∷ names) (k, h) = rw (k, non_empty_named names h) refl

take-AreNamed : (n : ℕ) (names : List Text) → AreNamed names → AreNamed (take n names)
unfolding take
take-AreNamed zero names h = tt
take-AreNamed (suc n) [] h = tt
take-AreNamed (suc n) (name ∷ names) (k, h) = (k, take-AreNamed n names h)

-- Host names of which none is empty can be got and set again.
pub set_host_names-IsCompact :
    (id : ListenerIdentifier) (names : List Text)
    → id.host_names ≡ empty_places 5
    → AreNamed names
    → IsCompact (set_host_names id names)
unfolding set_host_names
set_host_names-IsCompact id names fresh h =
    let got =
      (get_host_names-set_host_names id names fresh).0
      ∙ non_empty_named (take 5 names) (take-AreNamed 5 names h) in
    ap (set_names [] (empty_places 5)) got ∙ (set_names-take [] 5 names ∙ rw fresh refl)
