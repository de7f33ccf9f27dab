-- ===== src/Appgw/Keys.antt =====
-- pkg/appgw/internaltypes.go: the structs that are keys of Go maps, which `==` compares field by field.
use application_gateway_kube.Common.{
  Text, List, [], ◌∷◌, Bool, true, false, not, ◌&&◌, nat_beq, nat_beq_iff, text_beq, text_beq_iff,
  Comparable, ◌≡◌, ◌↔◌, arith,
}
use application_gateway_kube.Appgw.Names.{ListenerIdentifier}

pub record SecretIdentifier : Type 0 where
  pub namespace : Text
  pub name : Text

abbrev same_secret : SecretIdentifier → SecretIdentifier → Bool
same_secret a b = text_beq a.namespace b.namespace && text_beq a.name b.name

pub same_secret_iff : (a b : SecretIdentifier) → (same_secret a b ≡ true) ↔ (a ≡ b)
same_secret_iff a b =
    ground (arith, text_beq_iff a.namespace b.namespace, text_beq_iff a.name b.name)

instance abbrev pub secret_eq : Comparable SecretIdentifier
secret_eq = record { same = same_secret; same_iff = same_secret_iff }

abbrev names_beq : List Text → List Text → Bool
names_beq [] [] = true
names_beq [] (t ∷ ts) = false
names_beq (s ∷ ss) [] = false
names_beq (s ∷ ss) (t ∷ ts) = text_beq s t && names_beq ss ts

names_beq_iff : (ss ts : List Text) → (names_beq ss ts ≡ true) ↔ (ss ≡ ts)
names_beq_iff [] [] = ground arith
names_beq_iff [] (t ∷ ts) = ground arith
names_beq_iff (s ∷ ss) [] = ground arith
names_beq_iff (s ∷ ss) (t ∷ ts) = ground (arith, text_beq_iff s t, names_beq_iff ss ts)

abbrev bool_beq : Bool → Bool → Bool
bool_beq true b = b
bool_beq false b = not b

bool_beq_iff : (a b : Bool) → (bool_beq a b ≡ true) ↔ (a ≡ b)
bool_beq_iff true b = ground arith
bool_beq_iff false b = ground arith

abbrev same_listener : ListenerIdentifier → ListenerIdentifier → Bool
same_listener a b =
    nat_beq a.frontend_port b.frontend_port
    && (text_beq a.host_name b.host_name
        && (names_beq a.host_names b.host_names && bool_beq a.use_private_ip b.use_private_ip))

pub same_listener_iff : (a b : ListenerIdentifier) → (same_listener a b ≡ true) ↔ (a ≡ b)
same_listener_iff a b = ground (
  arith,
  nat_beq_iff a.frontend_port b.frontend_port,
  text_beq_iff a.host_name b.host_name,
  names_beq_iff a.host_names b.host_names,
  bool_beq_iff a.use_private_ip b.use_private_ip,
)

instance abbrev pub listener_eq : Comparable ListenerIdentifier
listener_eq = record { same = same_listener; same_iff = same_listener_iff }
