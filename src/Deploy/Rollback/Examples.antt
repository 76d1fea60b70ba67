-- ===== src/Deploy/Rollback/Examples.antt =====
-- A push at minute 60 broke the app; the deployment before it is put back.
use asdl_hub.Prelude.{◌*◌, ◌≡◌, refl, true, false, some, [], ◌∷◌, In, str_eq, stable_sort}
use asdl_hub.Samples.{sample_project, sample_deployment}
use asdl_hub.Models.{Deployment, RunStatus, minute}
use asdl_hub.Hub.{Hub}
use asdl_hub.Deploy.Rollback.{
  newer, newest, ran_before, deployment_before, auto_rollback_target, manual_rollback_target,
}
use asdl_hub.Deploy.Rollback.Targets.{BadRelease, auto_rollback_sound}

abbrev broken : Deployment
broken = record sample_deployment {
  status = RunStatus.completed;
  created_at = 60 * minute;
  completed_at = some (61 * minute);
}

abbrev good : Deployment
good = record broken {
  id = 29;
  image_name = "app:1";
  created_at = 40 * minute;
  completed_at = some (41 * minute);
}

abbrev hub : Hub
hub = record {
  nodes = [];
  jobs = [];
  projects = sample_project ∷ [];
  deployments = good ∷ broken ∷ [];
  migrations = [];
  oidc_deployments = [];
  project_plugins = [];
  app_outages = [];
  live_logs = [];
  notices = [];
  route_updates = 0;
}

goes_back : auto_rollback_target (65 * minute) sample_project hub ≡ some good
unfolding auto_rollback_target deployment_before newest stable_sort
goes_back = refl

auto_rollback_sound_example :
    (dep : Deployment) × BadRelease (65 * minute) sample_project hub dep
    × In good hub.deployments
    × (ran_before dep good ≡ true)
    × (str_eq good.image_name dep.image_name ≡ false)
    × ((d : Deployment) → In d hub.deployments → ran_before dep d ≡ true → newer d good ≡ false)
auto_rollback_sound_example = auto_rollback_sound (65 * minute) sample_project hub good goes_back

by_hand : manual_rollback_target sample_project hub ≡ some broken
unfolding manual_rollback_target newest stable_sort
by_hand = refl
