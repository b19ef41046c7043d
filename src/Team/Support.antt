-- ===== src/Team/Support.antt =====
-- The objects of a support group, of internal/controller/team/team_controller.go: a service account, a
-- role that lets it ask for tokens, and its binding.
use Prim.Native.String.{◌++◌}
use greenhouse.Prelude.{String, Option, none, some, List, [], ◌∷◌, insert}
use greenhouse.Platform.{Errors, found, failed}
use greenhouse.ClientUtil.{ObjectClient, create_or_patch}
use greenhouse.Object.{ObjectMeta}
use greenhouse.Owner.{label_key_owned_by}
use greenhouse.Team.{Team}

pub record ServiceAccount : Type 0 where
  pub metadata : ObjectMeta
  pub open metadata use *

pub record PolicyRule : Type 0 where
  pub api_groups : List String
  pub resources : List String
  pub verbs : List String
  pub resource_names : List String

pub record TokenRole : Type 0 where
  pub metadata : ObjectMeta
  pub rules : List PolicyRule

-- rbacv1.Subject and rbacv1.RoleRef
pub record TokenSubject : Type 0 where
  pub api_group : String
  pub kind : String
  pub name : String
  pub namespace : String

pub record TokenRoleRef : Type 0 where
  pub api_group : String
  pub kind : String
  pub name : String

pub record TokenRoleBinding : Type 0 where
  pub metadata : ObjectMeta
  pub role_ref : TokenRoleRef
  pub subjects : List TokenSubject

-- Clients for the three kinds; controllerutil.SetControllerReference with the scheme.
pub record SupportClient (W E : Type 0) : Type 0 where
  pub accounts : ObjectClient ServiceAccount W E
  pub roles : ObjectClient TokenRole W E
  pub bindings : ObjectClient TokenRoleBinding W E
  pub set_controller_reference : Team → ObjectMeta → Option E × ObjectMeta

abbrev new_meta : String → String → ObjectMeta
new_meta name namespace = record {
  name = name;
  namespace = namespace;
  labels = [];
  annotations = [];
  finalizers = [];
  deletion_timestamp = none;
}

abbrev pub account_name : Team → String
account_name team = team.name ++ "-sa"

abbrev pub role_name : Team → String
role_name team = team.name ++ "-sa-token-request"

abbrev pub rbac_group : String
rbac_group = "rbac.authorization.k8s.io"

abbrev pub new_account : Team → ServiceAccount
new_account team = record { metadata = new_meta (account_name team) team.namespace }

abbrev pub new_role : Team → TokenRole
new_role team = record { metadata = new_meta (role_name team) team.namespace; rules = [] }

abbrev pub new_binding : Team → TokenRoleBinding
new_binding team = record {
  metadata = new_meta (role_name team) team.namespace;
  role_ref = record { api_group = ""; kind = ""; name = "" };
  subjects = [];
}

module _ {W E : Type 0} (errors : Errors E) (client : SupportClient W E) where
  -- the mutations of the three objects
  unfoldable pub mutate_account : Team → ServiceAccount → Option E × ServiceAccount
  mutate_account team account =
      let labels = insert label_key_owned_by team.name account.labels in
      let (err, metadata) =
        client.set_controller_reference team (record account.metadata { labels = labels }) in
      (err, record account { metadata = metadata })

  unfoldable pub mutate_role : Team → TokenRole → Option E × TokenRole
  mutate_role team role =
      let rule : PolicyRule = record {
        api_groups = "" ∷ [];
        resources = "serviceaccounts/token" ∷ [];
        verbs = "create" ∷ [];
        resource_names = account_name team ∷ [];
      } in
      let (err, metadata) = client.set_controller_reference team role.metadata in
      (err, record { metadata = metadata; rules = rule ∷ [] })

  unfoldable pub mutate_binding : Team → TokenRoleBinding → Option E × TokenRoleBinding
  mutate_binding team binding =
      let group : TokenSubject = record {
        api_group = rbac_group;
        kind = "Group";
        name = "support-group:" ++ team.name;
        namespace = "";
      } in
      let account : TokenSubject = record {
        api_group = "";
        kind = "ServiceAccount";
        name = account_name team;
        namespace = team.namespace;
      } in
      let (err, metadata) = client.set_controller_reference team binding.metadata in
      (
        err,
        record {
          metadata = metadata;
          role_ref = record { api_group = rbac_group; kind = "Role"; name = role_name team };
          subjects = group ∷ account ∷ [];
        },
      )

  unfoldable pub reconcile_support_group_service_account : Team → W → Option E × W
  unfolding mutate_account
  reconcile_support_group_service_account team w =
      let ((result, err), o, w') =
        create_or_patch errors client.accounts (new_account team) (mutate_account team) w in
      (err, w')

  unfoldable pub reconcile_support_group_role : Team → W → Option E × W
  unfolding mutate_role
  reconcile_support_group_role team w =
      let ((result, err), o, w') =
        create_or_patch errors client.roles (new_role team) (mutate_role team) w in
      (err, w')

  unfoldable pub reconcile_support_group_role_binding : Team → W → Option E × W
  unfolding mutate_binding
  reconcile_support_group_role_binding team w =
      let ((result, err), o, w') =
        create_or_patch errors client.bindings (new_binding team) (mutate_binding team) w in
      (err, w')

  -- one of the three parts of ensureSupportGroupResourcesDeleted
  unfoldable pub delete_if_found : {O : Type 0} → ObjectClient O W E → O → W → Option E × W
  delete_if_found objects key w = elim (objects.get key w) [
    | failed e ↦ (errors.ignore_not_found (some e), w)
    | found o ↦ (let (err, w') = objects.delete o w in (errors.ignore_not_found err, w'))
  ]

  -- what runs if the step before it had no error
  abbrev pub unless_failed : Option E × W → (W → Option E × W) → Option E × W
  unless_failed (some e, w) next = (some e, w)
  unless_failed (none, w) next = next w

  unfoldable pub ensure_support_group_resources_deleted : Team → W → Option E × W
  unfolding delete_if_found
  ensure_support_group_resources_deleted team w =
      unless_failed (delete_if_found client.bindings (new_binding team) w) (λ w.
        unless_failed (delete_if_found client.roles (new_role team) w)
          (λ w. delete_if_found client.accounts (new_account team) w))

  unfoldable pub reconcile_support_group : Team → W → Option E × W
  unfolding reconcile_support_group_service_account reconcile_support_group_role
      reconcile_support_group_role_binding
  reconcile_support_group team w =
      unless_failed (reconcile_support_group_service_account team w) (λ w.
        unless_failed (reconcile_support_group_role team w)
          (λ w. reconcile_support_group_role_binding team w))
