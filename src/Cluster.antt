-- ===== src/Cluster.antt =====
-- The Cluster (api/v1alpha1/cluster_types.go) and what its controller reads of the cluster that it
-- stands for. Cluster/NodeStates has the nodes, Cluster/Status the conditions.
pub mod NodeStates
pub mod NodeCount
pub mod Status
pub mod Managed
pub mod Typed
pub mod Ready
pub mod Access
pub mod Token
pub mod Renewal
mod Examples
use greenhouse.Prelude.{ℕ, Bool, String, Option, List, Map}
use greenhouse.Platform.{Fetched}
use greenhouse.Object.{RuntimeObject}
use greenhouse.Conditions.{ConditionStatus}

pub record ClusterSpec : Type 0 where
  pub access_mode : String
  pub max_token_validity : ℕ

pub record NodeStatus : Type 0 where
  pub name : String
  pub message : String
  pub last_transition_time : ℕ

pub record Nodes : Type 0 where
  pub total : ℕ
  pub ready : ℕ
  pub not_ready : List NodeStatus

-- ClusterStatus without its conditions; 0 is the zero time.
pub record ClusterStatus : Type 0 where
  pub kubernetes_version : String
  pub bearer_token_expiration_timestamp : ℕ
  pub nodes : Option Nodes

abbrev pub Cluster : Type 0
Cluster = RuntimeObject ClusterSpec ClusterStatus

abbrev pub get_secret_name : Cluster → String
get_secret_name cluster = cluster.name

abbrev pub all_nodes_ready : String
all_nodes_ready = "AllNodesReady"

abbrev pub payload_schedulable : String
payload_schedulable = "PayloadSchedulable"

abbrev pub kube_config_valid : String
kube_config_valid = "KubeConfigValid"

abbrev pub permissions_verified : String
permissions_verified = "PermissionsVerified"

abbrev pub managed_resources_deployed : String
managed_resources_deployed = "ManagedResourcesDeployed"

-- corev1.NodeCondition and corev1.Node, as far as they are read
pub record NodeCondition : Type 0 where
  pub type : String
  pub status : ConditionStatus
  pub message : String
  pub last_transition_time : ℕ

pub record Node : Type 0 where
  pub name : String
  pub labels : Map String
  pub unschedulable : Bool
  pub conditions : List NodeCondition

-- corev1.Secret, as far as the status depends on it
pub record Secret : Type 0 where
  pub name : String
  pub namespace : String
  pub type : String

abbrev pub secret_type_kube_config : String
secret_type_kube_config = "greenhouse.sap/kubeconfig"

abbrev pub secret_type_oidc_config : String
secret_type_oidc_config = "greenhouse.sap/oidc"

abbrev pub service_account_name : String
service_account_name = "greenhouse"

-- The answers of the API servers while a status is computed: `G` is a RESTClientGetter and `C` a
-- client of the remote cluster. Namespaces come before names; `Option E` is the error of a Get.
pub record Remotes (G C E : Type 0) : Type 0 where
  pub get_secret : String → String → Fetched Secret E
  pub new_rest_client_getter_from_secret : Secret → Fetched G E
  pub get_kubernetes_version : G → Fetched String E
  pub new_k8s_client_from_rest_client_getter : G → Fetched C E
  pub list_nodes : C → Fetched (List Node) E
  pub get_namespace : C → String → Option E
  pub get_service_account : C → String → String → Option E
  pub get_cluster_role_binding : C → String → Option E
