-- ===== src/Migrations/Examples.antt =====
-- An app that is moved twice, and a move whose node never answers.
use asdl_hub.Prelude.{
  ◌+◌, ◌*◌, ◌≡◌, refl, ◌≢◌, true, false, none, [], ◌∷◌, arith, length, update, In,
}
use asdl_hub.Samples.{sample_node, sample_project, sample_job}
use asdl_hub.Models.{Ident, Node, Job, Migration, RunStatus, minute}
use asdl_hub.Hub.{Hub}
use asdl_hub.Deploy.Dispatch.{dispatch, queue_snapshots}
use asdl_hub.Deploy.Ports.{fixed_port_clash}
use asdl_hub.Migrations.{
  Move, migrate_to_node, move_checked, start_migration, gives_up, failed_migration,
  cleanup_stuck_migrations, migration_stuck,
}
use asdl_hub.Migrations.Requests.{migrate_project}
use asdl_hub.Migrations.Active.{OneActive, here, next, moved, requested, one_migration_each}
use asdl_hub.Migrations.Stuck.{Unclaimable, cleanup_exact}

abbrev other_node : Node
other_node = record sample_node { id = 2; vpn_ip = 12 }

abbrev third_node : Node
third_node = record sample_node { id = 3; vpn_ip = 13; online = false }

abbrev waiting_job : Job
waiting_job = record sample_job { id = 8; node_id = 3 }

abbrev unanswered : Migration
unanswered = record {
  id = 1;
  project_id = 6;
  container_id = 0;
  source_node_id = 1;
  target_node_id = 3;
  status = RunStatus.running;
  job_id = 8;
  created_at = 90 * minute;
  completed_at = none;
}

abbrev hub : Hub
hub = record {
  nodes = sample_node ∷ other_node ∷ third_node ∷ [];
  jobs = waiting_job ∷ [];
  projects = sample_project ∷ [];
  deployments = [];
  migrations = unanswered ∷ [];
  oidc_deployments = [];
  project_plugins = [];
  app_outages = [];
  live_logs = [];
  notices = [];
  route_updates = 0;
}

abbrev move : Ident → Move
move id = record {
  supply = record {
    now = 100 * minute;
    job_id = id + 20;
    deployment_id = id + 30;
    environment = [];
    job_saved = true;
    deployment_saved = true;
    snapshots = [];
  };
  migration_id = id;
  migration_saved = true;
}

abbrev once : Hub
once = (migrate_to_node (move 2) 5 2 hub).1

abbrev twice : Hub
twice = (migrate_project (move 3) 5 2 "" true once).1

second_is_refused : length twice.migrations ≡ 2
unfolding migrate_to_node migrate_project move_checked start_migration dispatch queue_snapshots
    fixed_port_clash
second_is_refused = refl

at_first : OneActive hub.migrations
at_first id = ground arith

one_migration_each_example : OneActive twice.migrations
one_migration_each_example =
    one_migration_each
      (next (next here (moved (move 2) 5 2 refl)) (requested (move 3) 5 2 "" true refl)) at_first

cleanup_exact_example :
    ((cleanup_stuck_migrations (92 * minute) hub).migrations
      ≡ update (gives_up (92 * minute) hub) failed_migration hub.migrations)
    × ((m : Migration)
        → In m hub.migrations
        → gives_up (92 * minute) hub m ≡ true
        → m.job_id ≢ 0
        → Unclaimable m.job_id (cleanup_stuck_migrations (92 * minute) hub).jobs)
cleanup_exact_example = cleanup_exact (92 * minute) hub (tt, tt)

given_up : gives_up (92 * minute) hub unanswered ≡ true
unfolding migration_stuck
given_up = refl
