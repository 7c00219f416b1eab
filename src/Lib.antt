-- ===== src/Lib.antt =====
-- The singbox-operator: a Kubernetes operator that computes the configurations of a fleet of
-- sing-box proxy nodes.
--
-- The program's parts and how they interact. Admission webhooks (internal/webhook) check custom
-- resources (api/v1alpha1) before they are stored. Controllers (internal/controller) read the
-- stored resources and Secrets (internal/credmanager), gather the input of one node, hand it to the
-- configuration engine (internal/configengine/engine.go), and write what it computes. The engine
-- derives a virtual user for every pair of a user and a target, and sing-box routes by virtual user.
-- The API server (internal/apiserver) computes the configuration of a client from the same
-- resources, and the usage collector (internal/usagecollector) reads the counters of virtual users.
--
-- Which file models which part:
--   Api/Objects, Api/Selector: the fields of the resources that the modelled code reads, and the
--     selectors and matches of policies (api/v1alpha1/*_types.go).
--   Api/Platform: third-party code, as functions that the model takes. Api/Conditions: the conditions
--     of a status, an interface whose laws the clients of it use and Samples fills.
--   Base: shared helpers; Texts and Decimals read and write numbers and separated texts.
--   Engine: internal/configengine/engine.go, function by function. Types has the data model, Auth
--     the derived credentials, Policies, Externals, Outbounds, Inbounds, Stats and Config the
--     functions that build the parts of a configuration, compute_config the whole of Compute.
--     The other files under Engine are proofs, named for what they prove.
--   Webhooks: internal/webhook/*.go and internal/webhook/v1alpha1/externaloutbound_webhook.go.
--     A validation is the list of its field errors; an object is admitted when it is empty.
--   Controllers/Credentials: internal/credmanager/credmanager.go, on an explicit store of Secrets.
--   Controllers/Collect: collectInput of internal/controller/singboxnode_controller.go, with the
--     input passed through its loops. Controllers/Mappers and Users have the mappers of that file,
--     from a change to the nodes that are reconciled, and Users findMatchingInboundNodes of
--     user_controller.go.
--   Controllers/Health: internal/controller/node_health.go and updateNodeReadyStatus.
--   Controllers/Status, Pods, Nodes: updateStatus and setDegraded; the ConfigMap, the Pod and the
--     Services of a node; and Reconcile of singboxnode_controller.go with handleDeletion and
--     ensureCredential, on the objects of the cluster that it changes. Rollout has the Pod over time,
--     as a list of reconciliations and ends of terminating Pods.
--   Controllers/Externals, Policies, Egress: externaloutbound_controller.go,
--     egresspolicy_controller.go and egresspolicy_helpers.go.
--   ApiServer/Targets, Endpoints, Outbounds, Config: internal/apiserver/client_config.go with
--     policy.go, and Policies: client_policy.go.
--   ApiServer/Json, Dns, Template, Default: internal/apiserver/template.go, on decoded JSON, where an
--     assignment to a map inside another one is written back into it.
--   ApiServer/Requests, Handler, Encoded: internal/apiserver/handler.go, from the path of a request
--     to its answer.
--   Usage/Counters, Poll, Sink: internal/usagecollector: v2rayclient.go, collector.go, and
--     elasticsearch.go with config.go. 64-bit counters are kept modulo 2^64, what the nodes and the
--     sink answer is a parameter.
--   Samples: small resources and a small cluster, on which the tests run.
--
-- How state and values correspond. A pointer that may be nil is an Option, a Go map an association
-- list (its order stands for the arbitrary order of iteration), a map used as a set a list of
-- names, an error `none` or a value of a type of results. Ports are natural numbers, where an unset
-- port is 0; priorities are signed. A JSON object is a list of fields. Sorting is a stable insertion
-- sort. Every function is structurally recursive, so that no fuel is needed. What a call of the
-- Kubernetes client answers is a field of `Controllers.Client.Client`, the same throughout one
-- reconciliation.
--
-- What is not modelled: the encoding and decoding of JSON and the hash functions (parameters),
-- a failure of json.Marshal, for which Reconcile would call setDegraded, a cache of the Kubernetes
-- client that lags behind, messages of errors and logs, metrics, owner references and resource
-- limits of Kubernetes objects, the annotations that trigger a reconciliation, the mapper of the
-- watch of Kubernetes Nodes, how the usage collector finds nodes and sends requests, the command
-- lines, and generated code.
mod Base
pub mod Api
pub mod Engine
pub mod Webhooks
pub mod Controllers
pub mod ApiServer
pub mod Usage
mod Samples
