-- ===== src/Lib.antt =====
-- Verification of the Perses operator: the controllers of Perses instances, dashboards,
-- datasources and global datasources, the factory of clients to Perses servers, and the operator's
-- own metrics.
--
-- The program. A controller is called with the namespace and the name of a resource. It reads the
-- resource from the Kubernetes API server, lists the Perses instances that its selector matches,
-- and for each instance that is available asks the factory for a client and brings the resource to
-- that server: it creates the project, compares what the server has with what is wanted, lets the
-- server validate what differs, and creates or updates it, for a datasource after its secret. The
-- outcome goes to the conditions of the resource, to the reconciliation tracker and to the counts
-- of synced and failed resources. A resource that is gone is forgotten and deleted from all
-- instances. The controller of instances reads the Perses resource and runs ten sub-reconcilers,
-- which handle its deletion and its status, check its volumes, record the versions of its secrets,
-- and create or update the Service, the ConfigMap and the Deployment or StatefulSet that it
-- consists of.
--
-- Which file models what:
-- - Errors.antt and Subreconciler.antt: the errors and reasons of
--   internal/perses/common/constants.go (NewReasonError, ExtractReason, IsClientError) and the
--   results of a step (internal/subreconciler/subreconciler.go).
-- - Act.antt and Act/Triple.antt: code that acts on a state and may end early with an error, as an
--   action from a state to an outcome and a state, and rules for conditions before and after it.
-- - Api.antt and Api/Instance.antt: the resources of api/v1alpha2 and the tests on a Perses
--   resource (isTLSEnabled and the others of constants.go, RequiresDeployment,
--   RequiresStatefulSet).
-- - Tags.antt: internal/perses/common/tags.go. Secret.antt: internal/perses/common/secret.go.
-- - Metrics.antt and Metrics/Tracker.antt: internal/metrics/metrics.go and
--   reconciliation_tracker.go.
-- - World.antt: the state on which the controllers act. The operations of the Kubernetes API
--   server, of a Perses server and its client, of the file system and of the libraries that
--   compare values are the fields of `Env`, over a state of their own. The world keeps a log of
--   the calls to Perses servers, which no code reads.
-- - Sync.antt: internal/perses/common/sync.go and the steps that syncPersesDashboard,
--   syncPersesDatasource and syncPersesGlobalDatasource write out alike. Dashboards.antt,
--   Datasources.antt and DatasourceSecret.antt put them together in the order of the three
--   functions of controllers/dashboards/dashboard_controller.go,
--   controllers/datasources/datasource_controller.go and
--   controllers/globaldatasources/globaldatasource_controller.go, with the functions that delete.
-- - Controller.antt, Controller/Reconcile.antt and Kinds.antt: the loops over the instances, the
--   status and the Reconcile methods of controllers/dashboards/persesdashboard_controller.go,
--   controllers/datasources/persesdatasource_controller.go and
--   controllers/globaldatasources/persesglobaldatasource_controller.go, once over a record of what
--   the three differ in.
-- - Pod.antt and its children: what a pod is built from, internal/perses/common/volumes.go,
--   labels.go, perses_args.go, probes.go and security.go, and GetSecretVolumeName of
--   api/v1alpha2/common_types.go.
-- - Workload.antt: the Kubernetes objects, the API server as the fields of `Cluster`, and the
--   state of a reconciliation, with the object of the context, which the sub-reconcilers share,
--   and a log of the writes, which no code reads. Workload/Child.antt has the create-or-update
--   that is written out four times in controllers/perses, and Services.antt, ConfigMaps.antt,
--   Deployments.antt and StatefulSets.antt beside it the builders, with Template.antt for the pod
--   template that two of them share. Mounts.antt and Settled.antt are about their results;
--   Settled.antt has what is assumed of the API server, which may refuse what it is sent.
-- - PersesController.antt and its children: controllers/perses/perses_controller.go.
-- - Conversion.antt and its children: the conversion of specifications between the versions
--   v1alpha1 and v1alpha2, api/v1alpha1/perses_conversion.go, persesdatasource_conversion.go and
--   zz_generated.conversion.go. An `int` is its 64 bits as a natural number.
-- - InformerCache.antt: internal/cache/options.go. Watches.antt: PersesBecameAvailable,
--   MetadataListToRequests and PersesAvailabilityPredicate of internal/perses/common/constants.go.
-- - Server.antt: what is assumed of a Perses server: what was created or updated is stored as it
--   was sent, a read returns what is stored, and no other call stores an object; and that
--   DeepEqual is equality of specifications up to empty lists and maps. Server/Deleted.antt adds
--   what is assumed of deletions. The other children carry these laws through the functions.
-- - ClientFactory.antt and its children: internal/perses/common/perses_client_factory.go; the
--   clock is an argument, and ClientFactory/Interleaving.antt has the critical sections of several
--   goroutines in any order.
-- - Examples.antt and its children: concrete runs, on a server that fulfils the laws.
--
-- Bounds. No fuel is used: every loop of the modelled code runs over a list. Times and durations
-- are natural numbers of nanoseconds, without the overflow of int64, which they do not reach. A
-- map is an association list with the keys in some order; no theorem depends on that order.
--
-- Labels and volume names are lists of characters, where Go counts bytes, which are the same for
-- ASCII. RetryOnConflict is a parameter; a theorem that depends on it assumes that it runs its
-- function any number of times and does nothing else.
--
-- Not modelled: buildClient, the settings of TLS, main.go, and log lines; nor what the API client
-- writes into an annotations map that an object shares with the resource. A panic is only seen in
-- Evaluate, where a nil result is dereferenced. What Perses servers, the API server and their
-- client libraries do is not part of the operator; it is assumed only where a theorem names it as
-- a hypothesis.
pub mod Prelude
pub mod Errors
pub mod Subreconciler
pub mod Act
pub mod Api
pub mod Tags
pub mod Secret
pub mod Metrics
pub mod Pod
pub mod Workload
pub mod Conversion
pub mod InformerCache
pub mod Watches
pub mod PersesController
pub mod World
pub mod Sync
pub mod Dashboards
pub mod DatasourceSecret
pub mod Datasources
pub mod Controller
pub mod Kinds
pub mod Server
pub mod ClientFactory
pub mod Examples
