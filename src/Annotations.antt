-- ===== src/Annotations.antt =====
-- pkg/annotations/ingress_annotations.go: the annotations of an ingress. A function that returns a
-- value and an error is a pair, since callers use the value of a failed parse.
pub mod Values
pub mod HostNames
use application_gateway_kube.Common.{
  ℕ, ◌+◌, ◌-◌, ◌*◌, ◌%◌, ◌^◌, Text, bytes, List, [], ◌∷◌, ◌++◌, Option, none, some, Bool, true,
  false, ◌&&◌, ◌||◌, not, ◌==◌, text_eq, nat_eq, if◌then◌else◌, leb, ltb, lookup, GoMap, to_lower,
  split, is_nil, ℤ, pos, negsuc,
}
use application_gateway_kube.Gateway.{Protocol, http, https, Ingress}

-- `ErrMissingAnnotations`, and `InvalidContent` with the name and the value that its text shows.
pub data AnnotationError : Type 0 where
  missing_annotations : AnnotationError
  invalid_content : Text → Text → AnnotationError

-- `IsMissingAnnotations` and `IsInvalidContent` of errors.go, of an error that may be nil.
unfoldable pub is_missing_annotations : Option AnnotationError → Bool
is_missing_annotations (some missing_annotations) = true
is_missing_annotations (some (invalid_content name val)) = false
is_missing_annotations none = false

unfoldable pub is_invalid_content : Option AnnotationError → Bool
is_invalid_content (some (invalid_content name val)) = true
is_invalid_content (some missing_annotations) = false
is_invalid_content none = false

-- The result of `strconv.ParseBool`.
unfoldable pub parse_bool_text : Text → Option Bool
parse_bool_text s =
    if s == bytes "1"
      || (s == bytes "t"
          || (s == bytes "T" || (s == bytes "true" || (s == bytes "TRUE" || s == bytes "True"))))
    then some true
    else if s == bytes "0"
        || (s == bytes "f"
            || (s == bytes "F"
                || (s == bytes "false" || (s == bytes "FALSE" || s == bytes "False"))))
    then some false
    else none

-- The number that decimal digits spell, after the digits that were read.
unfoldable pub digits_value : ℕ → Text → Option ℕ
digits_value acc [] = some acc
digits_value acc (c ∷ s) =
    let rest = digits_value (acc * 10 + (c - b'0')) s in
    if leb b'0' c && leb c b'9' then rest else none

-- `strconv.Atoi` on 64 bits: a sign and a magnitude.
abbrev pub in_range : Bool → Option ℕ → Option (Bool × ℕ)
in_range negative none = none
in_range negative (some n) =
    if ltb n (2 ^ 63) || (negative && leb n (2 ^ 63)) then some (negative, n) else none

abbrev pub digits_of : Text → Option ℕ
digits_of [] = none
digits_of (c ∷ s) = digits_value 0 (c ∷ s)

unfoldable pub atoi : Text → Option (Bool × ℕ)
atoi [] = none
atoi (c ∷ s) =
    if c == b'-'
    then in_range true (digits_of s)
    else if c == b'+'
    then in_range false (digits_of s)
    else in_range false (digits_of (c ∷ s))

-- `int32(x)`: the lowest 32 bits, read with their sign.
abbrev pub low_word : Bool → ℕ → ℕ
low_word negative n = if negative then (2 ^ 32 - n % 2 ^ 32) % 2 ^ 32 else n % 2 ^ 32

unfoldable pub to_int32 : Bool → ℕ → ℤ
to_int32 negative n =
    let u = low_word negative n in if ltb u (2 ^ 31) then pos u else negsuc (2 ^ 32 - u - 1)

abbrev pub bool_of : Text → Text → Option Bool → Bool × Option AnnotationError
bool_of name val none = (false, some (invalid_content name val))
bool_of name val (some b) = (b, none)

abbrev pub bool_at : Text → Option Text → Bool × Option AnnotationError
bool_at name none = (false, some missing_annotations)
bool_at name (some val) = bool_of name val (parse_bool_text val)

-- `parseBool`
unfoldable pub parse_bool : Ingress → Text → Bool × Option AnnotationError
parse_bool ing name = bool_at name (lookup name ing.annotations)

abbrev pub string_at : Option Text → Text × Option AnnotationError
string_at none = ([], some missing_annotations)
string_at (some val) = (val, none)

-- `parseString`
unfoldable pub parse_string : Ingress → Text → Text × Option AnnotationError
parse_string ing name = string_at (lookup name ing.annotations)

abbrev pub int32_of : Text → Text → Option (Bool × ℕ) → ℤ × Option AnnotationError
int32_of name val none = (pos 0, some (invalid_content name val))
int32_of name val (some n) = (to_int32 n.0 n.1, none)

abbrev pub int32_at : Text → Option Text → ℤ × Option AnnotationError
int32_at name none = (pos 0, some missing_annotations)
int32_at name (some val) = int32_of name val (atoi val)

-- `parseInt32`
unfoldable pub parse_int32 : Ingress → Text → ℤ × Option AnnotationError
parse_int32 ing name = int32_at name (lookup name ing.annotations)

-- `IsApplicationGatewayIngress`
unfoldable pub is_application_gateway_ingress : Ingress → Bool × Option AnnotationError
is_application_gateway_ingress ing =
    let found = parse_string ing (bytes "kubernetes.io/ingress.class") in
    (found.0 == bytes "azure/application-gateway", found.1)

abbrev pub is_agic_class : Option Text → Bool × Option AnnotationError
is_agic_class none = (false, some missing_annotations)
is_agic_class (some val) = (val == bytes "azure/application-gateway", none)

-- `IsIstioGatewayIngress`, of the annotations of a gateway.
unfoldable pub is_istio_gateway_ingress : GoMap Text Text → Bool × Option AnnotationError
is_istio_gateway_ingress annotations =
    is_agic_class (lookup (bytes "appgw.ingress.istio.io/v1alpha3") annotations)

-- `IsSslRedirect`
unfoldable pub is_ssl_redirect : Ingress → Bool × Option AnnotationError
is_ssl_redirect ing = parse_bool ing (bytes "appgw.ingress.kubernetes.io/ssl-redirect")

-- `BackendPathPrefix`
unfoldable pub backend_path_prefix : Ingress → Text × Option AnnotationError
backend_path_prefix ing = parse_string ing (bytes "appgw.ingress.kubernetes.io/backend-path-prefix")

-- `RequestTimeout`
unfoldable pub request_timeout : Ingress → ℤ × Option AnnotationError
request_timeout ing = parse_int32 ing (bytes "appgw.ingress.kubernetes.io/request-timeout")

-- `IsConnectionDraining`
unfoldable pub is_connection_draining : Ingress → Bool × Option AnnotationError
is_connection_draining ing =
    parse_bool ing (bytes "appgw.ingress.kubernetes.io/connection-draining")

-- `ConnectionDrainingTimeout`
unfoldable pub connection_draining_timeout : Ingress → ℤ × Option AnnotationError
connection_draining_timeout ing =
    parse_int32 ing (bytes "appgw.ingress.kubernetes.io/connection-draining-timeout")

-- `IsCookieBasedAffinity`
unfoldable pub is_cookie_based_affinity : Ingress → Bool × Option AnnotationError
is_cookie_based_affinity ing =
    parse_bool ing (bytes "appgw.ingress.kubernetes.io/cookie-based-affinity")

-- `UsePrivateIP`
unfoldable pub use_private_ip : Ingress → Bool × Option AnnotationError
use_private_ip ing = parse_bool ing (bytes "appgw.ingress.kubernetes.io/use-private-ip")

-- `WAFPolicy`
unfoldable pub waf_policy : Ingress → Text × Option AnnotationError
waf_policy ing = parse_string ing (bytes "appgw.ingress.kubernetes.io/waf-policy-for-path")

abbrev pub backend_protocol_key : Text
backend_protocol_key = bytes "appgw.ingress.kubernetes.io/backend-protocol"

-- `ProtocolEnumLookup`
unfoldable pub protocol_enum_lookup : Text → Option Protocol
protocol_enum_lookup s =
    if s == bytes "http" then some http else if s == bytes "https" then some https else none

abbrev pub protocol_or_error : Text → Option Protocol → Protocol × Option AnnotationError
protocol_or_error val none = (http, some (invalid_content backend_protocol_key val))
protocol_or_error val (some p) = (p, none)

abbrev pub protocol_of : Text → Option AnnotationError → Protocol × Option AnnotationError
protocol_of val (some err) = (http, some err)
protocol_of val none = protocol_or_error val (protocol_enum_lookup (to_lower val))

-- `BackendProtocol`
unfoldable pub backend_protocol : Ingress → Protocol × Option AnnotationError
backend_protocol ing =
    let found = parse_string ing backend_protocol_key in protocol_of found.0 found.1
