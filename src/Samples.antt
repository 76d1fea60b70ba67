-- ===== src/Samples.antt =====
-- Rows that the tests and examples share.
use asdl_hub.Prelude.{◌*◌, true, false, none, [], ◌∷◌}
use asdl_hub.Models.{
  Node, Job, JobType, JobStatus, Command, Scope, Project, ProjectStatus, HealthStatus, Deployment,
  Trigger, RunStatus, minute,
}

abbrev pub sample_node : Node
sample_node = record {
  id = 1;
  hostname = "alpha";
  vpn_ip = 11;
  cpu = 4;
  memory_total = 16 * 1024 * 1024 * 1024;
  memory_used = 0;
  disk_total = 1000;
  disk_used = 100;
  online = true;
  last_heartbeat = 100 * minute;
  capabilities = "parallel_jobs" ∷ [];
  uptime = 5000;
  created_at = 1;
  health_score = 90;
  last_check = 0;
  failure_count = 0;
  ping_latency = 1000;
  wifi_signal = 0;
  load_avg_1 = 50;
  agent_version = "1.0";
  maintenance = false;
  maintenance_since = none;
  maintenance_by = "";
  containers = [];
  parallel_jobs = 0;
  agent_started_at = none;
  going_away_at = none;
}

abbrev pub sample_job : Job
sample_job = record {
  id = 10;
  node_id = 1;
  kind = JobType.deploy;
  status = JobStatus.pending;
  command = Command.shell [];
  working_dir = "";
  environment = [];
  logs = [];
  exit_code = 0;
  max_retries = 1;
  timeout = 0;
  scope = Scope.app 5;
  created_at = 50 * minute;
  started_at = none;
  completed_at = none;
}

abbrev pub sample_project : Project
sample_project = record {
  id = 5;
  name = 97 ∷ [];
  repository = 0;
  node_id = 1;
  container_id = 0;
  deployment_id = 30;
  status = ProjectStatus.running;
  health_status = HealthStatus.healthy;
  image = "app:2";
  ports = [];
  auto_port = true;
  pinned = false;
  last_deployed = 60 * minute;
}

abbrev pub sample_deployment : Deployment
sample_deployment = record {
  id = 30;
  project_id = 5;
  trigger = Trigger.ci;
  repository = 0;
  node_id = 1;
  status = RunStatus.pending;
  image_name = "app:3";
  ports = [];
  logs = [];
  job_id = 10;
  created_at = 50 * minute;
  started_at = none;
  completed_at = none;
}
