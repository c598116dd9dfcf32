-- ===== src/Lib.antt =====
-- Integrity Shield: the decisions about requests and the observation of a cluster.
--
-- The program has a server, whose request handler decides on one request and one set of
-- parameters, an admission controller, which asks the handler once for each profile that applies
-- to a request, an observer, which verifies the resources of a cluster and writes the results to
-- it, and an operator, which installs the others.
--
-- Base: strings as lists of bytes, lists with native lengths, Go's results and panics.
-- External: what the program calls and does not contain, as records that the definitions take:
--   Kube (environment, files, the Kubernetes client), Sigstore (k8s-manifest-sigstore and the
--   unstructured objects), Labels, and Dynamic (the dynamic and the discovery client). A law is
--   asked for only where a theorem needs it, by UpdateIsLawful and CreateIsLawful.
-- Server.Parameter, Server.Config: integrity-shield-server/pkg/config. `load_key_secret` is
--   LoadKeySecret, `setup_logger` is SetupLogger, `binding_list_match` is
--   ObjectUserBindingList.Match.
-- Server.Shield: integrity-shield-server/pkg/shield/request_handler.go. `request_handler` is
--   RequestHandler; it takes the parameters and the state (the logger, the files and the cluster)
--   and gives them back with the result, since the Go code changes the parameters by a pointer.
-- Admission: admission-controller/pkg. `process_request` is ProcessRequest, `match_check` is
--   matchCheck, `update_constraints` is updateConstraints, `update_status` is UpdateStatus.
-- Observer: observer/pkg. `run` is Observer.Run and `observe_constraint` the body of its loop;
--   `observe_resources` is ObserveResources.
-- Server.Endpoint: integrity-shield-server/main.go. `request_endpoint` is requestHandler; what it
--   writes is the list of its calls on the response. Codec is encoding/json and the connection.
-- Operator.Types, Operator.Objects, Operator.Pods: integrity-shield-operator/api/v1alpha1 and the
--   Kubernetes objects that the operator builds.
-- Operator.Resources: integrity-shield-operator/resources, the builders of these objects, and
--   `equal_deployments`, which is EqualDeployments.
-- Operator.Creation, Operator.Deletion: integrity-shield-operator/controllers. `create_or` is the
--   body that the handlers share that create and update, `delete_found` that of those that delete;
--   `finalize` is the finalizer step of Reconcile.
-- Operator.Certificates: integrity-shield-operator/cert. `generate_cert` is GenerateCert, over
--   Crypto, the calls of the crypto library.
-- Operator.Client, Operator.Handlers, Operator.Event: the client of controller-runtime, the
--   handlers for each object, and the handler of the webhook with its event.
-- Operator.Reconcile: `reconcile` is Reconcile for a request, a namespace and a name, and
--   `run_handlers` its sequence of handlers, which ends at the first error or wish for another
--   pass. ClientIsLawful says that an object that was created, or that exists already, is found, and
--   that a call changes no other object; DeleteIsLawful, that what was deleted is not found.
-- Tests: a small cluster in memory, and the theorems at concrete inputs.
--
-- A nil pointer that the code can meet is `none`, and its use makes an outcome `panics`. An `int`
-- is its value modulo 2 ^ 64, an `int32` modulo 2 ^ 32. A map of a secret is the list of its
-- entries in the order in which the loop meets them. All loops are over slices, and are recursions
-- on lists, so no fuel is used. The time does not pass while a request or a run is processed.
--
-- The text of a value of a library type is the value where the code only passes it on; a nil map or
-- slice that the code tells from an empty one is `none`. What a deployment's
-- pods do, and when, is the client's to say.
--
-- What the verification of a signature reads besides the cluster, such as the key files, stands
-- behind `verify_resource`.
--
-- Not modelled: the generated clients and deep copies, the registration of the types, the main
-- functions, which wire the process, the five seconds that the operator sleeps, and what is only
-- logged.
pub mod Base
pub mod External
pub mod Server
pub mod Admission
pub mod Observer
pub mod Operator
mod Tests
