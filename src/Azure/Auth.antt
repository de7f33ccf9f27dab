-- ===== src/Azure/Auth.antt =====
-- pkg/azure/auth.go: the waiting for the gateway and for a token. The answers of the service are a
-- parameter: what it answers at each attempt.
use application_gateway_kube.Common.{
  ℕ, zero, suc, ◌+◌, ◌≤◌, ◌<◌, Text, Option, none, some, Bool, true, false, not, ◌&&◌, nat_beq,
  is_nil, if◌then◌else◌, ◌≡◌, ◌↔◌, refl, arith, Bool-cases, inl, inr, nat_beq_iff,
}

-- The answer to `GetGateway`: whether there was an error, and the status, where a response came.
pub record GatewayAnswer : Type 0 where
  pub failed : Bool
  pub status_code : Option ℕ

pub data AuthError : Type 0 where
  app_gateway_not_found get_arm_auth failed_get_token : AuthError

abbrev pub is_status : ℕ → Option ℕ → Bool
is_status code none = false
is_status code (some n) = nat_beq n code

-- The loop of `WaitForAzureAuth` at an attempt, with some retries left. With the error comes the
-- number of calls of `GetGateway` that were made.
unfoldable pub wait_from : (ℕ → GatewayAnswer) → ℕ → ℕ → Option AuthError × ℕ
wait_from answers zero attempt =
    if not (answers attempt).failed
    then (none, attempt + 1)
    else if is_status 404 (answers attempt).status_code
    then (some app_gateway_not_found, attempt + 1)
    else (some get_arm_auth, attempt + 1)
wait_from answers (suc retries) attempt =
    let rest = wait_from answers retries (attempt + 1) in
    if not (answers attempt).failed
    then (none, attempt + 1)
    else if is_status 404 (answers attempt).status_code
    then (some app_gateway_not_found, attempt + 1)
    else rest

-- `WaitForAzureAuth`
unfoldable pub wait_for_azure_auth : (ℕ → GatewayAnswer) → ℕ → Option AuthError × ℕ
unfolding wait_from
wait_for_azure_auth answers max_auth_retry_count = wait_from answers max_auth_retry_count 0

-- The three kinds of `getAuthorizer`.
pub data AuthorizerSource : Type 0 where
  from_file : Text → AuthorizerSource
  from_client_credentials from_environment : AuthorizerSource

-- `getAuthorizer`, of whether there is a context file: where the authorizer is taken from.
unfoldable pub get_authorizer : Text → Bool → Bool → AuthorizerSource
get_authorizer auth_location use_managed_identity has_az_context =
    if not (is_nil auth_location)
    then from_file auth_location
    else if not use_managed_identity && has_az_context
    then from_client_credentials
    else from_environment

abbrev pub or_retry :
    {A : Type 0} → Option A → Option AuthError × Option A → Option AuthError × Option A
or_retry (some authorizer) rest = (none, some authorizer)
or_retry none rest = rest

-- The loop of `GetAuthorizerWithRetry`: an authorizer that is there and came without an error.
unfoldable pub authorizer_from : {A : Type 0} → (ℕ → Option A) → ℕ → ℕ → Option AuthError × Option A
authorizer_from fetch zero attempt = or_retry (fetch attempt) (some failed_get_token, none)
authorizer_from fetch (suc retries) attempt =
    or_retry (fetch attempt) (authorizer_from fetch retries (attempt + 1))

-- `GetAuthorizerWithRetry`
unfoldable pub get_authorizer_with_retry :
    {A : Type 0} → (ℕ → Option A) → ℕ → Option AuthError × Option A
unfolding authorizer_from
get_authorizer_with_retry fetch max_auth_retry_count = authorizer_from fetch max_auth_retry_count 0

-- An attempt that succeeds, before which every attempt failed with another status than 404.
pub record SucceedsAt (answers : ℕ → GatewayAnswer) (from attempt : ℕ) : Type 0 where
  pub in_order : from ≤ attempt
  pub succeeds : (answers attempt).failed ≡ false
  pub retried :
      (i : ℕ)
      → from ≤ i
      → i < attempt
      → ((answers i).failed ≡ true) × (is_status 404 (answers i).status_code ≡ false)

SucceedsAt-next :
    (answers : ℕ → GatewayAnswer) (from attempt : ℕ)
    → (answers from).failed ≡ true
    → is_status 404 (answers from).status_code ≡ false
    → SucceedsAt answers (from + 1) attempt
    → SucceedsAt answers from attempt
SucceedsAt-next answers from attempt f n h = record {
  in_order = omega (arith, h.in_order);
  succeeds = h.succeeds;
  retried = λ i le lt. elim (Bool-cases (nat_beq i from)) [
    | inl same ↦ let e : i ≡ from = ground (arith, nat_beq_iff i from) in rw e (f, n)
    | inr other ↦ h.retried i (ground (arith, nat_beq_iff i from)) lt
  ];
}

SucceedsAt-later :
    (answers : ℕ → GatewayAnswer) (from attempt : ℕ)
    → (answers from).failed ≡ true
    → SucceedsAt answers from attempt
    → SucceedsAt answers (from + 1) attempt
SucceedsAt-later answers from attempt f h = record {
  in_order = elim (Bool-cases (nat_beq from attempt)) [
    | inl same ↦
        let e : from ≡ attempt = ground (arith, nat_beq_iff from attempt) in
        absurd (ground (arith, h.succeeds, e))
    | inr other ↦ ground (arith, nat_beq_iff from attempt, h.in_order)
  ];
  succeeds = h.succeeds;
  retried = λ i le lt. h.retried i (omega arith) lt;
}

abbrev WithinReach : (ℕ → GatewayAnswer) → ℕ → ℕ → Type 0
WithinReach answers retries from =
    (attempt : ℕ) × (attempt ≤ from + retries) × SucceedsAt answers from attempt

succeeds_now :
    (answers : ℕ → GatewayAnswer) (retries from : ℕ)
    → (answers from).failed ≡ false
    → WithinReach answers retries from
succeeds_now answers retries from e = (
  from,
  omega arith,
  record { in_order = omega arith; succeeds = e; retried = λ i le lt. absurd (omega arith) },
)

stuck_at_404 :
    (answers : ℕ → GatewayAnswer) (retries from : ℕ)
    → (answers from).failed ≡ true
    → is_status 404 (answers from).status_code ≡ true
    → ¬ WithinReach answers retries from
stuck_at_404 answers retries from f n (attempt, le, h) = elim (Bool-cases (nat_beq from attempt)) [
  | inl same ↦
      let e : from ≡ attempt = ground (arith, nat_beq_iff from attempt) in
      absurd (ground (arith, h.succeeds, e))
  | inr other ↦ absurd (
      ground (
        arith,
        h.retried from (omega arith) (ground (arith, nat_beq_iff from attempt, h.in_order)),
      ))
]

pub wait_from_iff :
    (answers : ℕ → GatewayAnswer) (retries from : ℕ)
    → ((wait_from answers retries from).0 ≡ none) ↔ WithinReach answers retries from
unfolding wait_from
wait_from_iff answers zero from = elim (Bool-cases (answers from).failed) [
  | inr good ↦ rw good ((λ h. succeeds_now answers 0 from good), (λ h. refl))
  | inl bad ↦ elim (Bool-cases (is_status 404 (answers from).status_code)) [
    | inl gone ↦
        rw (bad, gone) ((λ h. absurd (cc)), (λ h. absurd (stuck_at_404 answers 0 from bad gone h)))
    | inr other ↦
        rw (bad, other)
          ((λ h. absurd (cc)), (λ h. absurd (ground (arith, h.2.succeeds, h.1, h.2.in_order))))
  ]
]
wait_from_iff answers (suc retries) from = elim (Bool-cases (answers from).failed) [
  | inr good ↦ rw good ((λ h. succeeds_now answers (suc retries) from good), (λ h. refl))
  | inl bad ↦ elim (Bool-cases (is_status 404 (answers from).status_code)) [
    | inl gone ↦
        rw (bad, gone)
          ((λ h. absurd (cc)), (λ h. absurd (stuck_at_404 answers (suc retries) from bad gone h)))
    | inr other ↦
        rw (bad, other)
          (
            (λ h.
                let (a, le, s) = (wait_from_iff answers retries (from + 1)).0 h in
                (a, omega arith, SucceedsAt-next answers from a bad other s)),
            (λ h.
                (wait_from_iff answers retries (from + 1)).1
                  (h.0, omega (arith, h.1), SucceedsAt-later answers from h.0 bad h.2)),
          )
  ]
]

wait_from-calls :
    (answers : ℕ → GatewayAnswer) (retries from : ℕ)
    → (wait_from answers retries from).1 ≤ from + retries + 1
unfolding wait_from
wait_from-calls answers zero from = elim (Bool-cases (answers from).failed) [
  | inr good ↦ rw good (omega arith)
  | inl bad ↦ elim (Bool-cases (is_status 404 (answers from).status_code)) [
    | inl gone ↦ rw (bad, gone) (omega arith)
    | inr other ↦ rw (bad, other) (omega arith)
  ]
]
wait_from-calls answers (suc retries) from = elim (Bool-cases (answers from).failed) [
  | inr good ↦ rw good (omega arith)
  | inl bad ↦ elim (Bool-cases (is_status 404 (answers from).status_code)) [
    | inl gone ↦ rw (bad, gone) (omega arith)
    | inr other ↦ rw (bad, other) (omega (arith, wait_from-calls answers retries (from + 1)))
  ]
]

-- `WaitForAzureAuth` makes at most one call more than the number of retries, and returns without an
-- error exactly if one of these attempts succeeds and every one before it failed with another status
-- than 404.
pub wait_for_azure_auth_iff :
    (answers : ℕ → GatewayAnswer) (max_auth_retry_count : ℕ)
    → ((wait_for_azure_auth answers max_auth_retry_count).1 ≤ max_auth_retry_count + 1)
      × (((wait_for_azure_auth answers max_auth_retry_count).0 ≡ none)
          ↔ ((attempt : ℕ) × (attempt ≤ max_auth_retry_count) × SucceedsAt answers 0 attempt))
unfolding wait_for_azure_auth
wait_for_azure_auth_iff answers max_auth_retry_count =
    let h = wait_from_iff answers max_auth_retry_count 0 in
    (
      omega (arith, wait_from-calls answers max_auth_retry_count 0),
      (
        (λ e. let (a, le, s) = h.0 e in (a, omega arith, s)),
        (λ (a, le, s). h.1 (a, omega arith, s)),
      ),
    )
