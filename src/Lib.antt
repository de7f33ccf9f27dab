-- ===== src/Lib.antt =====
-- Verification of the Application Gateway ingress controller (AGIC).
--
-- AGIC turns Kubernetes ingresses into the configuration of an Azure Application Gateway. In a
-- brownfield deployment the gateway also serves targets that AGIC may not touch; they are listed as
-- prohibited targets. AGIC then splits the existing configuration into what is blacklisted, which it
-- keeps, and the rest, which it replaces, and merges what it keeps with what it creates.
--
-- Files and the code that they model:
--   Common, Common/*: texts as bytes, Go's run-time panics as the results of `Run`, Go maps as
--     association lists, keyed lists, the order `<` on texts; what Go leaves open, which is the order
--     in which a map is ranged over (`MapOrder`) and the work of `sort.Sort` (`Sort`), is a parameter
--     with the laws that Go documents. Common/Sorting has one instance of each, for the examples.
--   Gateway: the structs of the Azure SDK and of the Kubernetes API, with the fields in use.
--   Utils: pkg/utils/utils.go (`GetLastChunkOfSlashed`, `GetResourceKey`).
--   Sorter: pkg/sorter, the `Less` functions.
--   Brownfield/Targets: pkg/brownfield/targets.go (`IsBlacklisted`, `contains`,
--     `GetTargetBlacklist`). Contains, Blacklist and Prohibited are its theorems.
--   Brownfield/Existing: pkg/brownfield/types.go (`NewExistingResources`).
--   Brownfield/Buckets: the loops that the files of pkg/brownfield share.
--   Brownfield/RuleTargets: pkg/brownfield/routing_rules.go (`getRuleToTargets` and its helpers).
--   Brownfield/Blacklisted: `GetBlacklistedRoutingRules`, `GetBlacklistedPathMaps`,
--     `GetBlacklistedListeners`, `GetBlacklistedPools` of routing_rules.go, pathmaps.go, listeners.go
--     and pools.go.
--     Rules, Pools and Listeners say what is blacklisted.
--   Brownfield/HttpSettings, Brownfield/Redirects: the same of http_settings.go, health_probes.go and
--     redirects.go.
--   Brownfield/Merge: the `Merge…` and `Log…` functions of all these files and of certificates.go.
--   Brownfield/MergeRules: `MergeRules` of routing_rules.go and `MergePathMaps` of pathmaps.go, which
--     pass the path maps of the gateway as a state. OnePerListener and Basic are its theorems.
--   Brownfield/Ingress: pkg/brownfield/ingress.go (`PruneIngressRules`).
--   Appgw/Collections: the ends of `getPools`, `HealthProbesCollection`,
--     `BackendHTTPSettingsCollection`, `getRedirectConfigurations`, `getSslCertificates` and
--     `RequestRoutingRules` in pkg/appgw, from where the created items are known.
--   Appgw/Identifier: pkg/appgw/identifier.go, the IDs of the gateway's parts.
--   Appgw/Names: pkg/appgw/internaltypes.go (`formatPropName`, the names made with it,
--     `setHostNames`, `getHostNames`); the digest of MD5 is a parameter of 16 bytes. HostNames and
--     Compact are about host names that are set and got.
--   Annotations: pkg/annotations/ingress_annotations.go and errors.go, values and errors as pairs.
--   Controller/Prune: pkg/controller/prune.go (`PruneIngress` and its filters), which calls
--     Brownfield/Ingress and Annotations; the list of filters is a state, the events are an output.
--   Utils/Multimap: pkg/utils/threadsafemultimap.go; the sets of golang-set are a parameter.
--   Appgw/Validators: pkg/appgw/validators.go (`validateURLPathMaps`, `FatalValidateOnExistingConfig`).
--   Worker: pkg/worker/worker.go (`Run`, `drainChan`): the place in the loop, the channel, the clock, the
--     world and the calls made are the state; a step is one statement of the loop or a move of the
--     environment. Rounds is about the order and distance of the updates, Progress about what gets done.
--   Kubernetes: the objects of the API beside the ingresses, and the stores of client-go.
--   K8scontext/Handlers: pkg/k8scontext/handlers.go, ingress_handlers.go and secrets_handlers.go. Sent and
--     Orderly are about the events, Secrets about the map from ingresses to secrets.
--   K8scontext/Secretstore: pkg/k8scontext/secretstore.go; the temporary files and openssl are a parameter.
--   K8scontext/Listing, K8scontext/Status: pkg/k8scontext/context.go and istio_context.go: what is read from
--     the caches, the status of an ingress, and the resource group of the cluster.
--   Azure, Azure/Auth, Azure/Client: pkg/azure/azure.go, auth.go and client.go; the SDK is a parameter.
--   Environment: pkg/environment/environment.go.
--   Controller/ShouldProcess, Controller/MutateAks, Controller/MutateAppGateway: the files of these names in
--     pkg/controller, the latter with the cache of helpers.go; Controller/Json: `deleteKey` there.
--   Annotations/HostNames: `GetHostNameExtensions` of pkg/annotations/ingress_annotations.go.
--   Appgw/Keys: pkg/appgw/internaltypes.go, the structs that are keys of maps.
--   Appgw/Listeners: pkg/appgw/ingress_rules.go, certificates.go and `generateListenerID`: what one rule asks
--     for. Configs is `getListenerConfigs`; Provided and Secured are about the secrets, Asked about
--     which listeners there are configurations for, Plain about their identifiers.
--   Appgw/Certificates: pkg/appgw/certificates.go (`getSslCertificates`); Sent and Certified are about what is
--     sent.
--   Appgw/Frontend: pkg/appgw/frontend_listeners.go (`newListener`, `getListeners`) without Istio and the memo
--     of the builder; Ports, Served and Returning are about the ports, Made, Filled and Complete about the
--     listener that is made for an identifier.
--   Appgw/Backends: `newBackendIdsFiltered`, `resolvePortName` and the resolution of the ports of a backend
--     in pkg/appgw/backendhttpsettings.go. A backend is known by its place among the ingresses.
--   Appgw/Probes: pkg/appgw/health_probes.go. Listed says that the probe of a backend is created.
--   Appgw/Settings: pkg/appgw/backendhttpsettings.go. Listed, Probed and Bound are its theorems.
--   Appgw/Pools: pkg/appgw/backendaddresspools.go. Listed says that the pool of a backend is created, Addresses
--     which addresses it has.
--   Appgw/Grouping: pkg/appgw/frontend_ipconfigurations.go, redirects.go, and
--     `groupListenersByListenerIdentifier` of frontend_listeners.go. Returning and Redirects are about the
--     listeners that are grouped, and the redirections to them, Identified and Standing about
--     the identifiers computed.
--   Appgw/PathMaps, Appgw/Routing: pkg/appgw/requestroutingrules.go: what a rule adds to a path map, and the path
--     maps and rules of all ingresses. Merged and Sound are about the merge of path maps, Accepted about the
--     validator and the targets, Referred about what the path rules refer to, Listened about the listeners, Asked and
--     Answered about which identifiers have a path map and a rule, Gathered and Ordered about the path
--     rules of each, Directed about the rules that lead to them.
--   Appgw/Build: pkg/appgw/configbuilder.go (`Build`, `addTags`) and http_listeners.go, which call the steps
--     above in their order and pass the gateway from one to the next. Whole is about what the parts of a
--     configuration refer to, Completed, Ready and Valid about the configuration that a build makes, and
--     Answered, Left, Directed and Served about the identifiers that rules ask for.
--   Appgw/Validators/Services: `validateServiceDefinition` of validators.go, and the validations before and
--     after a build in configbuilder.go.
--   Examples: a small gateway, and each theorem applied to it.
--
-- Choices: a pointer that the code tests against nil is an `Option`, and a dereference that the code
-- does not guard ends in `panics`; the names of the gateway's items, and the ID of a path map, are
-- taken to be there, so a nil name is not modelled. `strings.ToLower` is modelled on ASCII letters.
-- The loops are structural, so there is no fuel, but for two: the retries of Azure/Auth count down, and
-- the loop of the worker, which never ends, is run for a number of statements, with a theorem that says
-- how many are enough. The lists that the `Log…` functions print are
-- modelled, the printing is not. The memoized results of the config builder are not modelled, since
-- they return what was built before.
--
-- Not modelled: the wiring of informers and clients, start-up, HTTP endpoints and metrics, generated
-- clients, the ARM template, the Istio part of the config builder, and the events that a build records. A
-- gateway has a `Sku`, of which the model keeps whether its tier is of the first version, and the cache
-- of the informer is not changed by the pruning of prohibited rules, which the code does in place.
pub mod Common
pub mod Utils
pub mod Worker
pub mod Kubernetes
pub mod Azure
pub mod Environment
pub mod K8scontext
pub mod Gateway
pub mod Brownfield
pub mod Sorter
pub mod Annotations
pub mod Controller
pub mod Appgw
pub mod Examples
