-- ===== src/Examples/Azure.antt =====
-- Examples for pkg/azure and pkg/environment.
use application_gateway_kube.Common.{
  ℕ, ◌≤◌, bytes, List, [], ◌∷◌, none, some, true, false, ◌≡◌, refl, ◌↔◌, leb, if◌then◌else◌, ◌==◌,
  text_eq, ◌⊎◌, has_byte,
}
use application_gateway_kube.Appgw.Identifier.{Identifier, public_ip_id}
use application_gateway_kube.Azure.Auth.{
  GatewayAnswer, wait_for_azure_auth, SucceedsAt, wait_for_azure_auth_iff,
}
use application_gateway_kube.Common.Split.{Lacks}
use application_gateway_kube.Azure.Ids.{Lacks-check}
use application_gateway_kube.Azure.Client.{AzService, get_public_ip}
use application_gateway_kube.Azure.Client.Memo.{
  PublicIpCall, or_else, memo_after, first_answer, get_public_ip-first_answer,
}
use application_gateway_kube.Environment.{EnvVariables, validate_env, get_env}
use application_gateway_kube.Environment.Accepted.{IsEmpty, IsGiven, validate_env_iff}

abbrev agw : Identifier
agw = record { subscription_id = bytes "s"; resource_group = bytes "g"; app_gw_name = bytes "a" }

-- The gateway answers with 403 twice and then well.
abbrev answers : ℕ → GatewayAnswer
answers i =
    if leb 2 i
    then record { failed = false; status_code = some 200 }
    else record { failed = true; status_code = some 403 }

wait_for_azure_auth_iff_example :
    ((wait_for_azure_auth answers 3).1 ≤ 4)
    × (((wait_for_azure_auth answers 3).0 ≡ none)
        ↔ ((attempt : ℕ) × (attempt ≤ 3) × SucceedsAt answers 0 attempt))
wait_for_azure_auth_iff_example = wait_for_azure_auth_iff answers 3

abbrev service : AzService ℕ
service = record {
  get_public_ip = λ group name. if group == bytes "g" then some 7 else none;
  get_vnet = λ group name. none;
  create_subnet = λ group vnet name prefix. false;
  get_subnet = λ group vnet name. none;
  get_group = λ group. none;
  deploy = λ subnet. none;
}

-- The service before the address was there.
abbrev earlier : AzService ℕ
earlier = record service { get_public_ip = λ group name. none }

-- A call that fails, a call for another name, and one that is answered.
abbrev calls : List (PublicIpCall ℕ)
calls =
    record { service = earlier; name = bytes "ip" }
    ∷ record { service = service; name = bytes "other" }
    ∷ record { service = service; name = bytes "ip" }
    ∷ []

ip-Lacks : Lacks b'/' (bytes "ip")
unfolding has_byte
ip-Lacks = Lacks-check (bytes "ip") refl

-- The earlier calls are answered for the group and the name, though the service fails by now.
get_public_ip-first_answer_example :
    (get_public_ip earlier (public_ip_id agw (bytes "ip")) (memo_after agw calls [])).0
    ≡ or_else (first_answer agw (bytes "ip") calls) (earlier.get_public_ip (bytes "g") (bytes "ip"))
unfolding has_byte
get_public_ip-first_answer_example =
    get_public_ip-first_answer agw (Lacks-check (bytes "s") refl) (Lacks-check (bytes "g") refl)
      (bytes "ip") ip-Lacks calls (ip-Lacks, (Lacks-check (bytes "other") refl, (ip-Lacks, tt)))
      earlier

first_answer_at_ip : first_answer agw (bytes "ip") calls ≡ some 7
unfolding first_answer
first_answer_at_ip = refl

-- An environment in which only the name of the gateway is set.
abbrev env : EnvVariables
env =
    get_env (λ name. if name == bytes "APPGW_NAME" then some (bytes "agw") else none)
      (λ value. false) (λ value. false)

validate_env_iff_example : (validate_env env ≡ none) ↔ (
    ((env.enable_deploy_app_gateway ≡ true)
      × IsEmpty env.app_gw_resource_id
      × IsGiven env.app_gw_name
      × (IsGiven env.app_gw_subnet_id ⊎ IsGiven env.app_gw_subnet_prefix))
    ⊎ ((env.enable_deploy_app_gateway ≡ false)
        × (IsGiven env.app_gw_name ⊎ IsGiven env.app_gw_resource_id)))
validate_env_iff_example = validate_env_iff env
