-- ===== src/Controller/MutateAks/Sources.antt =====
-- pkg/controller/mutate_aks.go: what a configuration resolves to.
use application_gateway_kube.Common.{
  deref-some, Text, Option, none, some, text_eq, returns, deref, ◌≡◌, refl, OnReturn, >>=-OnReturn,
  Option-cases, inl, inr,
}
use application_gateway_kube.Gateway.{SubResource, FrontendIpConfiguration, FrontendIpProperties}
use application_gateway_kube.Controller.MutateAks.{
  PublicIps, resolve_configuration, resolve, public_id, address_of, get_public_ip_address,
}

-- The configuration has the private address, or it has none, and Azure has the address for its public IP.
pub data IsAddress (public_ips : PublicIps) (conf : FrontendIpConfiguration) (ip : Text)
    : Type 0 where
  private_address :
      (props : FrontendIpProperties)
      → conf.properties ≡ some props
      → props.private_ip_address ≡ some ip
      → IsAddress public_ips conf ip
  public_address :
      (props : FrontendIpProperties) (ref : SubResource) (id : Text)
      → conf.properties ≡ some props
      → props.private_ip_address ≡ none
      → props.public_ip_address ≡ some ref
      → ref.id ≡ some id
      → public_ips id ≡ some (some ip)
      → IsAddress public_ips conf ip

-- The configuration has no private address, and Azure answers with an error about its public IP.
pub record IsUnknown (public_ips : PublicIps) (conf : FrontendIpConfiguration) : Type 0 where
  pub props : FrontendIpProperties
  pub ref : SubResource
  pub id : Text
  pub has_props : conf.properties ≡ some props
  pub not_private : props.private_ip_address ≡ none
  pub refers : props.public_ip_address ≡ some ref
  pub has_id : ref.id ≡ some id
  pub fails : public_ips id ≡ none

module _ (public_ips : PublicIps) where
  -- What a resolution says of a configuration.
  abbrev pub Resolves : FrontendIpConfiguration → Option Text → Type 0
  Resolves conf none = IsUnknown public_ips conf
  Resolves conf (some ip) = IsAddress public_ips conf ip

  public_id-some :
      (props : FrontendIpProperties) (id : Text)
      → public_id props ≡ returns id
      → (ref : SubResource) × (props.public_ip_address ≡ some ref) × (ref.id ≡ some id)
  public_id-some props id d = elim (Option-cases props.public_ip_address) [
    | inl nothing ↦ let d' = rw nothing at d in absurd (cc)
    | inr (ref, refers) ↦ (ref, refers, deref-some ref.id (rw refers at d))
  ]

  module _ (conf : FrontendIpConfiguration) (props : FrontendIpProperties)
      (p : conf.properties ≡ some props) where
    answer-Resolves :
        (ref : SubResource) (id : Text)
        → props.private_ip_address ≡ none
        → props.public_ip_address ≡ some ref
        → ref.id ≡ some id
        → (o : Option (Option Text)) → public_ips id ≡ o
        → OnReturn (Resolves conf) (address_of o)
    answer-Resolves ref id own refers has_id none e = record {
      props = props;
      ref = ref;
      id = id;
      has_props = p;
      not_private = own;
      refers = refers;
      has_id = has_id;
      fails = e;
    }
    answer-Resolves ref id own refers has_id (some none) e = tt
    answer-Resolves ref id own refers has_id (some (some ip)) e =
        public_address props ref id p own refers has_id e

    resolve-Resolves :
        (own : Option Text)
        → props.private_ip_address ≡ own
        → OnReturn (Resolves conf) (resolve public_ips props own)
    unfolding get_public_ip_address
    resolve-Resolves (some ip) own = private_address props p own
    resolve-Resolves none own = >>=-OnReturn (Resolves conf) (public_id props) _ λ id d.
        let (ref, refers, has_id) = public_id-some props id d in
        answer-Resolves ref id own refers has_id (public_ips id) refl

  pub resolve_configuration-Resolves :
      (conf : FrontendIpConfiguration)
      → OnReturn (Resolves conf) (resolve_configuration public_ips conf)
  resolve_configuration-Resolves conf =
      >>=-OnReturn (Resolves conf) (deref conf.properties) _ λ props p.
        resolve-Resolves conf props (deref-some conf.properties p) props.private_ip_address refl

  IsAddress-resolves :
      (conf : FrontendIpConfiguration) (ip : Text)
      → IsAddress public_ips conf ip
      → resolve_configuration public_ips conf ≡ returns (some ip)
  unfolding get_public_ip_address
  IsAddress-resolves conf ip (private_address props p own) = rw (p, own) refl
  IsAddress-resolves conf ip (public_address props ref id p own refers has_id found) =
      rw (p, own, refers, has_id, found) refl

  IsUnknown-resolves :
      (conf : FrontendIpConfiguration)
      → IsUnknown public_ips conf
      → resolve_configuration public_ips conf ≡ returns none
  unfolding get_public_ip_address
  IsUnknown-resolves conf u = rw (u.has_props, u.not_private, u.refers, u.has_id, u.fails) refl

  -- A configuration has one answer.
  pub Resolves-one :
      (conf : FrontendIpConfiguration) (a ip : Text)
      → IsAddress public_ips conf a
      → IsAddress public_ips conf ip
      → a ≡ ip
  Resolves-one conf a ip h k =
      let e = IsAddress-resolves conf a h in let f = IsAddress-resolves conf ip k in cc

  pub IsUnknown-no-IsAddress :
      (conf : FrontendIpConfiguration) (ip : Text)
      → IsUnknown public_ips conf
      → ¬ IsAddress public_ips conf ip
  IsUnknown-no-IsAddress conf ip h k =
      let e = IsUnknown-resolves conf h in let f = IsAddress-resolves conf ip k in cc
