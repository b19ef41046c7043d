-- ===== src/Authz/Examples.antt =====
-- A plugin that is owned by the team `core`, and a member of that team.
use greenhouse.Prelude.{
  String, true, ◌≡◌, refl, inl, ◌==◌, some, [], ◌∷◌, if◌then◌else◌, Map, lookup, cut_prefix,
}
use greenhouse.Platform.{Fetched, found, failed}
use greenhouse.Platform.Examples.{plain_errors, not_found}
use greenhouse.Owner.{label_key_owned_by, label_key_support_group, is_support_group}
use greenhouse.Authz.{
  ResourceAttributes, SubjectAccessReview, Cluster, respond, handle_authorize,
  extract_service_account_name,
}
use greenhouse.Authz.Rules.{MayAccess}
use greenhouse.Authz.Decision.{handle_authorize_sound}
use greenhouse.Authz.Complete.{handle_authorize_complete}

abbrev post : String
post = "POST"

abbrev core_labels : Map String
core_labels = (label_key_owned_by, "core") ∷ []

abbrev team_labels : Map String
team_labels = (label_key_support_group, "true") ∷ []

abbrev cluster : Cluster String String
cluster = record {
  kind_for = λ g v r. found "Plugin";
  get_object = λ k ns n. found core_labels;
  get_service_account = λ ns n. failed not_found;
  get_team = λ ns n. if n == "core" then found team_labels else failed not_found;
}

abbrev plugin : ResourceAttributes
plugin = record {
  namespace = "org";
  verb = "get";
  group = "greenhouse.sap";
  version = "*";
  resource = "plugins";
  name = "p";
}

abbrev review : SubjectAccessReview
review = record {
  user = "ann";
  groups = "support-group:core" ∷ [];
  resource_attributes = some plugin;
}

abbrev body : Fetched SubjectAccessReview String
body = found review

no_service_account : extract_service_account_name "ann" "org" ≡ ""
unfolding extract_service_account_name cut_prefix
no_service_account = refl

owned_by_core : lookup label_key_owned_by core_labels ≡ some "core"
unfolding lookup
owned_by_core = refl

core_supports : is_support_group team_labels ≡ true
unfolding is_support_group lookup
core_supports = refl

abbrev may : MayAccess plain_errors cluster review
may = record {
  attrs = plugin;
  team = "core";
  asked = refl;
  owned = record {
    kind = "Plugin";
    labels = core_labels;
    resolved = refl;
    stored = refl;
    owner = owned_by_core;
  };
  group = (team_labels, refl, core_supports);
  member = inl (no_service_account, refl);
}

handle_authorize_complete_example :
    handle_authorize plain_errors cluster "POST" (found review)
    ≡ respond true "authorized to access resource owned by core"
handle_authorize_complete_example = handle_authorize_complete plain_errors cluster review may refl

allowed :
    handle_authorize plain_errors cluster "POST" (found review)
    ≡ respond true "authorized to access resource owned by core"
allowed = handle_authorize_complete plain_errors cluster review may refl

handle_authorize_sound_example :
    (post ≡ "POST")
    × ((r : SubjectAccessReview) × (body ≡ found r) × MayAccess plain_errors cluster r)
handle_authorize_sound_example =
    handle_authorize_sound plain_errors cluster post "authorized to access resource owned by core"
      body allowed
