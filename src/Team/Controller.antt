-- ===== src/Team/Controller.antt =====
-- EnsureCreated and EnsureDeleted of internal/controller/team/team_controller.go.
use greenhouse.Prelude.{ℕ, String, not, ◌==◌, Option, none, some, List, if◌then◌else◌}
use greenhouse.Platform.{Errors, Fetched, found, failed, Result, no_requeue}
use greenhouse.Conditions.{Condition, true_condition, false_condition, get_condition_by_type, holds}
use greenhouse.Lifecycle.{ReconcileResult, success, failure}
use greenhouse.Owner.{is_support_group}
use greenhouse.Scim.{Http}
use greenhouse.Team.{
  Team, scim_access_ready, scim_api_available, set_team_condition, init_team_status,
}
use greenhouse.Team.Members.{Members, members, unknown_members, endless, get_users_from_scim}
use greenhouse.Team.Support.{
  SupportClient, ensure_support_group_resources_deleted, reconcile_support_group,
}

-- What is read of an Organization: its conditions, and its SCIM configuration, if any.
pub record Organization (C : Type 0) : Type 0 where
  pub conditions : List Condition
  pub scim_config : Option C

-- `create_scim_client` is createSCIMClient: a client is the answers that it gets. `jitter` is what
-- wait.Jitter makes of the interval.
pub record TeamHub (C W E : Type 0) : Type 0 where
  pub support : SupportClient W E
  pub get_organization : String → W → Fetched (Organization C) E
  pub create_scim_client : String → C → W → Fetched (Http E) E
  pub jitter : ℕ

module _ {C W E : Type 0} (errors : Errors E) (hub : TeamHub C W E) (fuel now : ℕ) where
  -- none stands for a loop over the pages that did not end
  abbrev pub Created : Type 0
  Created = Option ((Result × ReconcileResult × Option E) × Team × W)

  abbrev fail : Option E → Team → W → Created
  fail err team w = some ((no_requeue, failure, err), team, w)

  abbrev done : Team → W → Created
  done team w = some ((no_requeue, success, none), team, w)

  abbrev access : Condition → Team → Team
  access c team = set_team_condition now c team

  -- the end of EnsureCreated
  abbrev finish_team : Team → Option E × W → Created
  finish_team team (some e, w) = fail (some e) team w
  finish_team team (none, w) =
      some ((record { requeue_after = hub.jitter }, success, none), team, w)

  unfoldable pub with_members : Members E → Team → W → Created
  unfolding set_team_condition
  with_members endless team w = none
  with_members (unknown_members e) team w =
      fail (some e) (access (false_condition now scim_access_ready "SCIMRequestFailed" "") team) w
  with_members (members users valid) team w =
      let listed = record (access valid team) { status = users } in
      let ready = access (true_condition now scim_access_ready "" "") listed in
      finish_team ready (
        if is_support_group team.labels
        then reconcile_support_group errors hub.support ready w
        else (none, w))

  unfoldable pub with_organization : Organization C → Team → W → Created
  unfolding with_members
  with_organization organization team w =
      if team.spec.mapped_idp_group == ""
      then done team w
      else if not (holds (get_condition_by_type organization.conditions scim_api_available))
      then done
          (access
            (false_condition now scim_access_ready "SCIMAPIUnavailable"
              "SCIM API in Organization is unavailable")
            team)
          w
      else elim organization.scim_config [
        | none ↦
            done
              (access
                (false_condition now scim_access_ready "SecretNotFound"
                  "SCIM config is missing from organization")
                team)
              w
        | some config ↦ elim (hub.create_scim_client team.namespace config w) [
          | failed e ↦
              fail (some e)
                (access
                  (false_condition now scim_access_ready "SCIMConfigErrorReason" (errors.text e))
                  team)
                w
          | found http ↦
              with_members (get_users_from_scim errors http fuel now team.spec.mapped_idp_group)
                team w
        ]
      ]

  abbrev with_cleanup : Team → Option E × W → Created
  with_cleanup team (some e, w) = fail (some e) team w
  with_cleanup team (none, w) = elim (hub.get_organization team.namespace w) [
    | failed e ↦ fail (errors.ignore_not_found (some e)) team w
    | found organization ↦ with_organization organization team w
  ]

  -- EnsureCreated
  unfoldable pub ensure_team_created : Team → W → Created
  unfolding with_organization
  ensure_team_created obj w =
      let team = init_team_status now obj in
      with_cleanup team (
        if is_support_group team.labels
        then (none, w)
        else ensure_support_group_resources_deleted errors hub.support team w)
