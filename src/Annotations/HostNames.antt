-- ===== src/Annotations/HostNames.antt =====
-- pkg/annotations/ingress_annotations.go: the further host names of an ingress. Of the spaces that
-- `strings.TrimSpace` cuts off, the ASCII ones are modelled.
use application_gateway_kube.Common.{
  Text, bytes, List, [], ◌∷◌, Option, none, some, split, is_nil, trim_right, has_byte,
  if◌then◌else◌,
}
use application_gateway_kube.Gateway.{Ingress}
use application_gateway_kube.Annotations.{AnnotationError, parse_string}

abbrev pub spaces : Text
spaces = 9 ∷ 10 ∷ 11 ∷ 12 ∷ 13 ∷ 32 ∷ []

unfoldable pub trim_left : Text → Text → Text
unfolding has_byte
trim_left cutset [] = []
trim_left cutset (c ∷ s) =
    let rest = trim_left cutset s in if has_byte cutset c then rest else c ∷ s

-- `strings.TrimSpace` on ASCII.
unfoldable pub trim_space : Text → Text
unfolding trim_left trim_right
trim_space s = trim_left spaces (trim_right spaces s)

-- The loop of `GetHostNameExtensions`: a name is tested before its spaces are cut off.
unfoldable pub trimmed_names : List Text → List Text
unfolding trim_space
trimmed_names [] = []
trimmed_names (name ∷ names) =
    let rest = trimmed_names names in if is_nil name then rest else trim_space name ∷ rest

abbrev pub names_or_error : Text → Option AnnotationError → List Text × Option AnnotationError
names_or_error val none = (trimmed_names (split b',' val), none)
names_or_error val (some err) = ([], some err)

-- `GetHostNameExtensions`
unfoldable pub get_host_name_extensions : Ingress → List Text × Option AnnotationError
unfolding trimmed_names
get_host_name_extensions ing =
    let (val, err) = parse_string ing (bytes "appgw.ingress.kubernetes.io/hostname-extension") in
    names_or_error val err
