-- ===== src/Cluster/Managed.antt =====
-- What reconcileBootstrapResources (internal/controller/cluster/cluster_status.go) says of the
-- resources on the remote cluster.
use greenhouse.Prelude.{
  ℕ, Bool, false, not, ◌&&◌, ◌||◌, ◌≡◌, refl, ◌==◌, some, is_some, inl, inr, Bool-cases,
  Option-cases,
}
use greenhouse.Platform.{Errors, found, failed, Fetched-cases}
use greenhouse.Conditions.{Condition, is_false}
use greenhouse.Cluster.{
  Secret, Remotes, secret_type_oidc_config, service_account_name, managed_resources_deployed,
}
use greenhouse.Cluster.Status.{undeployed, reconcile_bootstrap_resources}

module _ {G C E : Type 0} (errors : Errors E) (remotes : Remotes G C E) where
  -- Whether the resources that the controller manages are all on the remote cluster.
  abbrev pub deployed : C → Secret → Bool
  deployed remote_client secret =
      not (is_some (remotes.get_namespace remote_client secret.namespace))
      && (secret.type == secret_type_oidc_config
          || not (
              is_some
                (remotes.get_service_account remote_client secret.namespace service_account_name))
            && not (is_some (remotes.get_cluster_role_binding remote_client service_account_name)))

  abbrev pub reaches : Secret → G → Bool
  reaches secret getter = elim (remotes.new_k8s_client_from_rest_client_getter getter) [
    | failed e ↦ false
    | found remote_client ↦ deployed remote_client secret
  ]

  -- A condition that says whether the managed resources are deployed.
  abbrev pub Says : Bool → Condition → Type 0
  Says b c = (is_false c ≡ not b) × (c.type ≡ managed_resources_deployed)

  bootstrap-deployed :
      (now : ℕ) (getter : G) (secret : Secret) (remote_client : C)
      → remotes.new_k8s_client_from_rest_client_getter getter ≡ found remote_client
      → Says
          (deployed remote_client secret)
          (reconcile_bootstrap_resources errors remotes now getter (some secret))
  unfolding reconcile_bootstrap_resources undeployed
  bootstrap-deployed now getter secret remote_client h =
      elim (Option-cases (remotes.get_namespace remote_client secret.namespace)) [
        | inr (x, e) ↦ rw (reconcile_bootstrap_resources, h, e) (refl, refl)
        | inl e ↦ elim (Bool-cases (secret.type == secret_type_oidc_config)) [
          | inl o ↦ rw (reconcile_bootstrap_resources, h, e, o) (refl, refl)
          | inr o ↦
              elim (Option-cases
                (remotes.get_service_account remote_client secret.namespace service_account_name)) [
                  | inr (x, s) ↦ rw (reconcile_bootstrap_resources, h, e, o, s) (refl, refl)
                  | inl s ↦
                      elim (Option-cases
                        (remotes.get_cluster_role_binding remote_client service_account_name)) [
                          | inr (x, b) ↦
                              rw (reconcile_bootstrap_resources, h, e, o, s, b) (refl, refl)
                          | inl b ↦ rw (reconcile_bootstrap_resources, h, e, o, s, b) (refl, refl)
                        ]
                ]
        ]
      ]

  pub bootstrap-reaches :
      (now : ℕ) (getter : G) (secret : Secret)
      → Says
          (reaches secret getter)
          (reconcile_bootstrap_resources errors remotes now getter (some secret))
  unfolding reconcile_bootstrap_resources
  bootstrap-reaches now getter secret =
      elim (Fetched-cases (remotes.new_k8s_client_from_rest_client_getter getter)) [
        | inl (c, e) ↦ rw (reaches, e) (bootstrap-deployed now getter secret c e)
        | inr (x, e) ↦ rw (reconcile_bootstrap_resources, reaches, e) (refl, refl)
      ]
