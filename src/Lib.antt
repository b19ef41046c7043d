-- ===== src/Lib.antt =====
-- A verification library for Greenhouse, the platform that manages Kubernetes clusters, teams and
-- plugins from one central cluster.
--
-- The parts of the program that are modelled, and how they interact:
-- - Conditions: the conditions of a status (api/meta/v1alpha1/conditions_types.go and
--   conditions_constants.go). SetConditions, GetConditionByType and the tests of one condition keep
--   their names; a time is a number and the current time a parameter.
-- - Object, Lifecycle: the generic reconciliation of one resource (pkg/lifecycle/reconcile.go and
--   context.go). Every controller gives it the methods EnsureCreated, EnsureDeleted and
--   EnsureSuspended (the record Reconciler); it keeps the cleanup finalizer and the conditions of
--   the status. Reconcile and its helpers are in Lifecycle/Reconcile, in the order in which Reconcile
--   calls them; Lifecycle/Store states what the API server promises about the
--   finalizers of the object it stores; nothing is assumed of Get, which may fail or be out of date.
-- - Propagation: labels and annotations that one object hands down to another
--   (pkg/lifecycle/propagation.go), with the record of what was handed down in an annotation. Apply
--   and CopyLabels are apply and copy_labels.
-- - ClientUtil: CreateOrPatch, Patch, PatchStatus, Delete and IgnoreAlreadyExists
--   (internal/clientutil/patch.go, delete.go and error.go), which the next part and Team use.
-- - TeamRbac: the TeamRoleBinding (api/v1alpha2/teamrolebinding_types.go) and its controller
--   (internal/controller/teamrbac/teamrolebinding_controller.go), a Reconciler in the sense of
--   Lifecycle. The status of a binding is a slice over its backing array (Prelude/Slices), since two
--   loops of the controller range over it while they remove entries from it. TeamRbac/Remote has the
--   objects on one remote cluster, TeamRbac/Cleanup the choice of clusters and the loops that clean
--   them up, TeamRbac/Deploy doReconcile, and TeamRbac/Controller the methods of the controller.
-- - Owner: the owned-by label of a resource, as the controllers report it (internal/util/conditions.go)
--   and as the webhooks validate it (ValidateLabelOwnedBy of internal/webhook/utils.go).
-- - Authz: the authorization webhook (cmd/authz/authorization.go), from handleAuthorize down. The
--   rules by which it decides are in Authz/Rules.
-- - Permissions: which permissions a user lacks (internal/common/permissions.go).
-- - Cluster: the Cluster (api/v1alpha1/cluster_types.go) and the status that its controller computes
--   (internal/controller/cluster/cluster_status.go). Cluster/NodeStates has the nodes, Cluster/Status
--   the conditions, of which Permissions gives one; Cluster/Token the request for a token of the remote
--   cluster (internal/controller/cluster/utils/token.go).
-- - Options: the values of the options of a plugin. Options/Merge merges them with the options of a
--   definition (internal/helm/utils.go and values.go; sort.Slice, which leaves the order of equal names
--   open, is a parameter), Options/Values adds those of the central cluster, and
--   Options/Validate is what the webhook demands of them (validatePluginOptionValues of
--   internal/webhook/v1alpha1/plugin_webhook.go, IsValidValue of
--   api/v1alpha1/plugindefinition_types.go).
-- - Tracking: option values that are taken from other resources, and the annotation by which those
--   resources know the plugins that track them (internal/controller/plugin/plugin_values_resolver.go).
--   Tracking/Resolve finds the values, Tracking/Remove takes annotations away, and Tracking/Release
--   is computeReleaseValues and the notification of trackers (plugin_controller_flux.go beside it).
-- - Scim: the client of the identity provider (internal/scim). Its loop over the pages has fuel: as
--   much as there are pages is enough, and `stuck` stands for a loop that has not ended. A provider
--   that leads back to a page makes the loop of the source endless.
-- - Team: the Team (api/v1alpha1/team_types.go) and its controller
--   (internal/controller/team/team_controller.go). Team/Members takes the members from Scim,
--   Team/Support makes the objects of a support group by ClientUtil, Team/Controller is EnsureCreated.
-- - Mirror: references of images and their mirrors (internal/ocimirror). Mirror/Rewrite is
--   BuildImageTransformations, Mirror/Replicate the replication of images.
-- - Preset: the PluginPreset (api/v1alpha1/pluginpreset_types.go) and a part of its controller
--   (internal/controller/plugin/pluginpreset_controller.go): Preset/Statuses is
--   reconcilePluginStatuses, Preset/Cleanup cleanupPlugins and EnsureDeleted.
-- - Predicates: which changes of watched objects cause a reconciliation
--   (internal/clientutil/predicates.go).
-- - Platform: what the program takes from Go's errors, apimachinery and controller-runtime. None of
--   that code is in the repository: it is passed as records of operations, and theorems name the
--   documented behaviour that they rely on as hypotheses. encoding/json, CEL,
--   regular expressions, the parsers of tokens and of image references, HTTP answers, and the making
--   of clients for remote clusters and for identity providers are passed alike.
-- Prelude has the helpers: lists, maps as association lists in the order of one iteration, slices,
-- and the functions of Go's package strings that the program calls, with the native texts.
--
-- A function that changes its receiver returns it; the state of everything outside the process is a
-- world W that operations thread through. An error is a value, Option E one that may be nil. Loops
-- recurse on the list that they range over, or on the length of a slice that was read at their
-- start; only the loop over the pages of an identity provider has fuel.
-- The functions are total; where a comment says so, `none` is the nil dereference of the source.
--
-- Not modelled: events, logs and metrics; the set-up of watches and indices; the other controllers,
-- webhooks and commands, most of whose work is calls of Helm, Flux, Dex or the API server; and
-- generated code.
pub mod Prelude
pub mod Conditions
pub mod Platform
pub mod Object
pub mod Lifecycle
pub mod Propagation
pub mod ClientUtil
pub mod TeamRbac
pub mod Authz
pub mod Cluster
pub mod Mirror
pub mod Options
pub mod Owner
pub mod Permissions
pub mod Predicates
pub mod Preset
pub mod Scim
pub mod Team
pub mod Tracking
