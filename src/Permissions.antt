-- ===== src/Permissions.antt =====
-- internal/common/permissions.go: which permissions a user lacks on a cluster. `C` is a client.
use greenhouse.Prelude.{
  Bool, ◌&&◌, not, String, Option, List, [], ◌∷◌, ◌==◌, if◌then◌else◌, is_some,
}

pub record Permission : Type 0 where
  pub name : String
  pub verb : String
  pub api_group : String
  pub resource : String

abbrev permission : String → String → String → String → Permission
permission name verb api_group resource = record {
  name = name;
  verb = verb;
  api_group = api_group;
  resource = resource;
}

abbrev pub greenhouse_permissions : List Permission
greenhouse_permissions =
    permission "createCluster" "create" "greenhouse.sap" "clusters"
    ∷ permission "deleteCluster" "delete" "greenhouse.sap" "clusters"
    ∷ permission "updateCluster" "update" "greenhouse.sap" "clusters"
    ∷ permission "patchCluster" "patch" "greenhouse.sap" "clusters"
    ∷ permission "createSecret" "create" "" "secrets"
    ∷ permission "updateSecret" "update" "" "secrets"
    ∷ permission "patchSecret" "patch" "" "secrets"
    ∷ []

abbrev pub client_cluster_permissions : List Permission
client_cluster_permissions = permission "clusterAdmin" "*" "*" "*" ∷ []

-- corev1.NamespaceAll
abbrev pub namespace_all : String
namespace_all = ""

-- What the API server answers to the creation of an access review: the error, and `Allowed`.
-- Both take the namespace and the verb, group and resource of a permission.
pub record AccessReviews (C E : Type 0) : Type 0 where
  pub create_self_review : C → String → Permission → Option E × Bool
  pub create_review : C → String → String → Permission → Option E × Bool  -- the user first

module _ {C E : Type 0} (reviews : AccessReviews C E) where
  unfoldable pub can_i : C → String → String → Permission → Bool
  can_i kube_client user namespace p =
      let (err, allowed) =
        if user == ""
        then reviews.create_self_review kube_client namespace p
        else reviews.create_review kube_client user namespace p in
      not (is_some err) && allowed

  unfoldable pub check_permission_map : C → List Permission → String → String → List Permission
  check_permission_map kube_client [] user namespace = []
  check_permission_map kube_client (p ∷ permissions) user namespace =
      let missing = check_permission_map kube_client permissions user namespace in
      if not (can_i kube_client user namespace p) then p ∷ missing else missing

  abbrev pub check_greenhouse_permission : C → String → String → List Permission
  check_greenhouse_permission kube_client user namespace =
      check_permission_map kube_client greenhouse_permissions user namespace

  abbrev pub check_client_cluster_permission : C → String → String → List Permission
  check_client_cluster_permission kube_client user namespace =
      check_permission_map kube_client client_cluster_permissions user namespace
