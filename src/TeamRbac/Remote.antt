-- ===== src/TeamRbac/Remote.antt =====
-- The RBAC objects that teamrolebinding_controller.go (internal/controller/teamrbac) builds, and its
-- operations on one remote cluster. `P` is the type of the rules of a role, `A` that of its
-- aggregation rule. Logging is left out.
use Prim.Native.String.{◌++◌}
use greenhouse.Prelude.{
  String, Bool, true, false, ◌&&◌, ◌==◌, Option, none, some, List, [], ◌∷◌, map, if◌then◌else◌,
  contains, delete_func, Map, insert,
}
use mathlib.Core.List.{◌++◌ as append}
use greenhouse.Platform.{Errors, Fetched, found, failed}
use greenhouse.ClientUtil.{ObjectClient, create_or_patch, delete}
use greenhouse.TeamRbac.{TeamRoleBinding, rbac_prefix, get_rbac_name, is_cluster_scoped}

abbrev pub label_key_role : String
label_key_role = "greenhouse.sap/role"

abbrev pub label_key_role_binding : String
label_key_role_binding = "greenhouse.sap/rolebinding"

abbrev pub group_name : String
group_name = "rbac.authorization.k8s.io"

pub record TeamRole (P A : Type 0) : Type 0 where
  pub name : String
  pub rules : P
  pub aggregation_rule : A
  pub labels : Map String

pub record ClusterRole (P A : Type 0) : Type 0 where
  pub name : String
  pub labels : Map String
  pub rules : P
  pub aggregation_rule : A

pub record RoleRef : Type 0 where
  pub api_group : String
  pub kind : String
  pub name : String

pub record Subject : Type 0 where
  pub kind : String
  pub api_group : String
  pub name : String

-- A RoleBinding, or a ClusterRoleBinding, whose namespace is empty.
pub record RoleBinding : Type 0 where
  pub name : String
  pub namespace : String
  pub labels : Map String
  pub role_ref : RoleRef
  pub subjects : List Subject

-- initRBACClusterRole
unfoldable pub init_rbac_cluster_role : {P A : Type 0} → TeamRole P A → ClusterRole P A
init_rbac_cluster_role role = record {
  name = rbac_prefix ++ role.name;
  labels = insert label_key_role role.name role.labels;
  rules = role.rules;
  aggregation_rule = role.aggregation_rule;
}

-- generateSubjects
abbrev user_subject : String → Subject
user_subject name = record { kind = "User"; api_group = group_name; name = name }

abbrev group_subject : String → Subject
group_subject name = record { kind = "Group"; api_group = group_name; name = name }

group_subjects : List String → List Subject
group_subjects [] = []
group_subjects (g ∷ gs) =
    let rest = group_subjects gs in if g == "" then rest else group_subject g ∷ rest

unfoldable pub generate_subjects : List String → List String → List Subject
unfolding group_subjects
generate_subjects usernames mapped_idp_groups =
    append (map user_subject usernames) (group_subjects mapped_idp_groups)

abbrev pub cluster_role_ref : {P A : Type 0} → ClusterRole P A → RoleRef
cluster_role_ref cr = record { api_group = group_name; kind = "ClusterRole"; name = cr.name }

module _ {L P A : Type 0} where
  unfoldable pub rbac_role_binding :
      TeamRoleBinding L → ClusterRole P A → List Subject → String → RoleBinding
  rbac_role_binding trb cr subjects namespace = record {
    name = get_rbac_name trb;
    namespace = namespace;
    labels = (label_key_role_binding, trb.name) ∷ [];
    role_ref = cluster_role_ref cr;
    subjects = subjects;
  }

  unfoldable pub rbac_cluster_role_binding :
      TeamRoleBinding L → ClusterRole P A → List Subject → RoleBinding
  rbac_cluster_role_binding trb cr subjects = record {
    name = get_rbac_name trb;
    namespace = "";
    labels = (label_key_role_binding, trb.name) ∷ (label_key_role, trb.spec.team_role_ref) ∷ [];
    role_ref = cluster_role_ref cr;
    subjects = subjects;
  }

-- A client of one remote cluster.
pub record RemoteClient (P A W E : Type 0) : Type 0 where
  pub cluster_roles : ObjectClient (ClusterRole P A) W E
  pub cluster_role_bindings : ObjectClient RoleBinding W E
  pub role_bindings : ObjectClient RoleBinding W E
  pub list_role_bindings : String → W → Fetched (List RoleBinding) E  -- by metadata.name
  pub create_namespace : String → W → Option E × W
  pub has_roles : String → W → Fetched Bool E  -- whether any Role has the label with this value
  pub has_cluster_role_bindings : String → W → Fetched Bool E
  pub empty_rules : P
  pub no_aggregation_rule : A

module _ {P A W E : Type 0} (errors : Errors E) (remote : RemoteClient P A W E) where
  -- reconcileClusterRole
  unfoldable pub reconcile_cluster_role : ClusterRole P A → W → Option E × W
  reconcile_cluster_role cr w =
      let start : ClusterRole P A = record {
        name = cr.name;
        labels = [];
        rules = remote.empty_rules;
        aggregation_rule = remote.no_aggregation_rule;
      } in
      let ((result, err), o, w') =
        create_or_patch errors remote.cluster_roles start
          (λ r. (
            none,
            record r {
              labels = cr.labels;
              rules = cr.rules;
              aggregation_rule = cr.aggregation_rule;
            },
          ))
          w in
      (err, w')

  abbrev unset_binding : RoleBinding → RoleBinding
  unset_binding rb = record {
    name = rb.name;
    namespace = rb.namespace;
    labels = [];
    role_ref = record { api_group = ""; kind = ""; name = "" };
    subjects = [];
  }

  abbrev copy_binding : RoleBinding → RoleBinding → Option E × RoleBinding
  copy_binding from r =
      (none, record r { labels = from.labels; role_ref = from.role_ref; subjects = from.subjects })

  -- reconcileClusterRoleBinding
  unfoldable pub reconcile_cluster_role_binding : RoleBinding → W → Option E × W
  reconcile_cluster_role_binding crb w =
      let ((result, err), o, w') =
        create_or_patch errors remote.cluster_role_bindings (unset_binding crb) (copy_binding crb)
          w in
      (err, w')

  missing_namespace : RoleBinding → Bool → Option E → W → Option E × W
  missing_namespace rb create_namespaces none w = (none, w)
  missing_namespace rb create_namespaces (some e) w =
      if create_namespaces && errors.is_not_found e
      then (let (err, w') = remote.create_namespace rb.namespace w in
          (
            elim err [
              | none ↦ some (errors.new "failed to create RoleBinding, created missing namespace")
              | some e' ↦ some e'
            ],
            w',
          ))
      else (some e, w)

  -- reconcileRoleBinding
  unfoldable pub reconcile_role_binding : RoleBinding → Bool → W → Option E × W
  unfolding missing_namespace
  reconcile_role_binding rb create_namespaces w =
      let ((result, err), o, w') =
        create_or_patch errors remote.role_bindings (unset_binding rb) (copy_binding rb) w in
      missing_namespace rb create_namespaces err w'

  -- The deletion loops stop at the first error.
  unfoldable pub delete_role_bindings : List RoleBinding → W → Option E × W
  delete_role_bindings [] w = (none, w)
  delete_role_bindings (rb ∷ rbs) w =
      let ((result, err), w') = delete errors remote.role_bindings rb w in
      let rest = delete_role_bindings rbs w' in elim err [ none ↦ rest | some e ↦ (some e, w') ]

  module _ {L : Type 0} (trb : TeamRoleBinding L) where
    -- deleteAllDeployedRoleBindings
    unfoldable pub delete_all_deployed_role_bindings : W → Option E × W
    delete_all_deployed_role_bindings w = elim (remote.list_role_bindings (get_rbac_name trb) w) [
      | failed e ↦ (if errors.is_not_found e then none else some e, w)
      | found rbs ↦ delete_role_bindings rbs w
    ]

    -- deleteClusterRoleBinding
    unfoldable pub delete_cluster_role_binding : W → Option E × W
    delete_cluster_role_binding w =
        let ((result, err), w') =
          delete errors remote.cluster_role_bindings
            (record {
              name = get_rbac_name trb;
              namespace = "";
              labels = [];
              role_ref = record { api_group = ""; kind = ""; name = "" };
              subjects = [];
            })
            w in
        (err, w')

    -- deleteClusterRole
    unfoldable pub delete_cluster_role : W → Option E × W
    delete_cluster_role w =
        let ((result, err), w') =
          delete errors remote.cluster_roles
            (record {
              name = rbac_prefix ++ trb.spec.team_role_ref;
              labels = [];
              rules = remote.empty_rules;
              aggregation_rule = remote.no_aggregation_rule;
            })
            w in
        (err, w')

    -- isRoleReferenced, with the error beside the answer
    unfoldable pub is_role_referenced : W → Bool × Option E
    is_role_referenced w = elim (remote.has_roles trb.spec.team_role_ref w) [
      | failed e ↦ (true, some e)
      | found true ↦ (true, none)
      | found false ↦ elim (remote.has_cluster_role_bindings trb.spec.team_role_ref w) [
        | failed e ↦ (true, some e)
        | found any ↦ (any, none)
      ]
    ]

    -- cleanupCluster, from the client on
    unfoldable pub cleanup_remote : W → Option E × W
    cleanup_remote w =
        let (err, w') =
          if is_cluster_scoped trb
          then delete_cluster_role_binding w
          else delete_all_deployed_role_bindings w in
        elim err [
          | some e ↦ (some e, w')
          | none ↦
              (let (referenced, failure) = is_role_referenced w' in
                elim failure [
                  | some e ↦ (some e, w')
                  | none ↦ if referenced then (none, w') else delete_cluster_role w'
                ])
        ]

    -- cleanupClusterNamespaces, from the client on
    unfoldable pub cleanup_remote_namespaces : W → Option E × W
    cleanup_remote_namespaces w = elim (remote.list_role_bindings (get_rbac_name trb) w) [
      | failed e ↦ (if errors.is_not_found e then none else some e, w)
      | found rbs ↦
          delete_role_bindings (delete_func rbs (λ rb. contains trb.spec.namespaces rb.namespace)) w
    ]
