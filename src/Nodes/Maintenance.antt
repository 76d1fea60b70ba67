-- ===== src/Nodes/Maintenance.antt =====
-- internal/services/maintenance_service.go: taking a node out of service, jobs on one of its containers, and
-- how many jobs it may run.
use asdl_hub.Prelude.{
  ℕ, String, Bool, true, false, ◌&&◌, ◌||◌, not, Option, none, some, List, [], ◌∷◌, ◌++◌, ltb, leb,
  ◌==◌, if◌then◌else◌, length, select, update, head, str_eq, stable_sort,
}
use asdl_hub.Models.{
  Ident, Time, Text, Node, NodeContainer, Job, JobType, JobStatus, Command, Scope, Project, Trigger,
  app_scope, is_available, text_eq,
}
use asdl_hub.Models.Capacity.{max_parallel_jobs, recommended_parallel_jobs}
use asdl_hub.Hub.{Hub, node_by_id, create_job, notify, node_maintenance}
use asdl_hub.Deploy.Dispatch.{Supply, dispatch}

-- Each app that was on the node, with the node that it is moved to, if it is.
pub record MaintenanceResult : Type 0 where
  pub moving : List (Ident × Ident)
  pub stays : List Ident

abbrev pub marked : Bool → String → Time → Node → Node
marked on by now n = record n {
  maintenance = on;
  maintenance_by = if on then by else "";
  maintenance_since = if on then some now else none;
}

abbrev pub same_flag : Bool → Bool → Bool
same_flag true b = b
same_flag false b = not b

-- The row of the node is rewritten only when the mode changes.
abbrev pub switch : Node → Bool → String → Time → Hub → Hub
switch n on by now h =
    if same_flag n.maintenance on
    then h
    else record h { nodes = update (λ x. x.id == n.id) (marked on by now) h.nodes }

abbrev pub has_image : Ident → Project → Bool
has_image node_id p = p.node_id == node_id && not (str_eq p.image "")

-- The first node with the best score that is online, not in maintenance, and not this one.
abbrev pub refuge : Ident → Hub → Option Node
refuge node_id h = head (
    stable_sort (λ a b. ltb b.health_score a.health_score)
      (select (λ n. is_available n && not (n.id == node_id)) h.nodes))

abbrev pub staying : Ident → MaintenanceResult → MaintenanceResult
staying p r = record r { stays = r.stays ++ p ∷ [] }

abbrev pub leaving : Ident → Ident → MaintenanceResult → MaintenanceResult
leaving p target r = record r { moving = r.moving ++ (p, target) ∷ [] }

abbrev pub sent_off : Project → Node → MaintenanceResult → Bool × Hub → MaintenanceResult × Hub
sent_off p target r (true, h) = (leaving p.id target.id r, h)
sent_off p target r (false, h) = (staying p.id r, h)

abbrev pub to_refuge :
    (Ident → Supply) → Project → Option Node → MaintenanceResult × Hub → MaintenanceResult × Hub
to_refuge w p none (r, h) = (staying p.id r, h)
to_refuge w p (some target) (r, h) =
    sent_off p target r (dispatch (w p.id) p target p.image Trigger.migration h)

abbrev pub clear_one :
    (Ident → Supply) → Ident → Project → MaintenanceResult × Hub → MaintenanceResult × Hub
clear_one w node_id p (r, h) =
    if p.pinned then (staying p.id r, h) else to_refuge w p (refuge node_id h) (r, h)

unfoldable pub clear_each :
    (Ident → Supply) → Ident → List Project → MaintenanceResult × Hub → MaintenanceResult × Hub
clear_each w node_id [] s = s
clear_each w node_id (p ∷ ps) s = clear_each w node_id ps (clear_one w node_id p s)

-- `saved` is what the database says to the new mode; if it refuses, nothing is moved.
unfoldable pub change_maintenance :
    (Ident → Supply) → Node → Bool → String → Time → Bool → Hub → Option MaintenanceResult × Hub
change_maintenance w n on by now saved h =
    let switched = switch n on by now h in
    let nothing : MaintenanceResult = record { moving = []; stays = [] } in
    let (result, cleared) =
      clear_each w n.id (select (has_image n.id) switched.projects) (nothing, switched) in
    if not (same_flag n.maintenance on) && not saved
    then (none, h)
    else if not on
    then (some nothing, switched)
    else (some result, cleared)

-- A change of the mode is told at the end in any case, also when the database refused it.
unfoldable pub set_maintenance :
    (Ident → Supply) → Node → Bool → String → Time → Bool → Hub → Option MaintenanceResult × Hub
set_maintenance w n on by now saved h =
    let (result, after) = change_maintenance w n on by now saved h in
    (result, if same_flag n.maintenance on then after else notify (node_maintenance 0 n.id) after)

abbrev is_name_char : ℕ → Bool
is_name_char c =
    (leb 97 c && leb c 122)
    || (leb 65 c && leb c 90)
    || (leb 48 c && leb c 57)
    || c == 95
    || c == 46
    || c == 45

abbrev is_name_start : ℕ → Bool
is_name_start c = (leb 97 c && leb c 122) || (leb 65 c && leb c 90) || (leb 48 c && leb c 57)

abbrev every : (ℕ → Bool) → Text → Bool
every p [] = true
every p (c ∷ s) = p c && every p s

-- ^[a-zA-Z0-9][a-zA-Z0-9_.-]{0,127}$
unfoldable pub is_container_name : Text → Bool
is_container_name [] = false
is_container_name (c ∷ s) = is_name_start c && every is_name_char s && leb (length s) 127

-- containerScope; `other` is the text "container:<name>".
unfoldable pub container_scope : String → List NodeContainer → Text → Scope
container_scope other [] name = Scope.other other
container_scope other (c ∷ cs) name =
    let rest = container_scope other cs name in
    if text_eq c.name name && not (c.project_id == 0) then app_scope c.project_id else rest

pub data JobAnswer : Type 0 where
  invalid_name node_not_found node_offline job_not_stored : JobAnswer
  agent_too_old : JobAnswer
  job_queued : Ident → JobAnswer

abbrev pub container_job : Ident → JobType → ℕ → Text → Node → Scope → Time → Job
container_job id kind timeout command n scope now = record {
  id = id;
  node_id = n.id;
  kind = kind;
  status = JobStatus.pending;
  command = Command.shell command;
  working_dir = "";
  environment = [];
  logs = [];
  exit_code = 0;
  max_retries = 0;
  timeout = timeout;
  scope = scope;
  created_at = now;
  started_at = none;
  completed_at = none;
}

abbrev queue_on :
    Ident → JobType → ℕ → Text → String → Bool → Text → Time → Option Node → Hub → JobAnswer × Hub
queue_on id kind timeout command other saved name now none h = (node_not_found, h)
queue_on id kind timeout command other saved name now (some n) h =
    let job =
      container_job id kind timeout command n (container_scope other n.containers name) now in
    if not n.online
    then (node_offline, h)
    else (if saved then job_queued id else job_not_stored, create_job saved job h)

-- containerJobFor; `command` is the shell text for the container.
unfoldable pub container_job_for :
    Ident → JobType → ℕ → Text → String → Bool → Ident → Text → Time → Hub → JobAnswer × Hub
container_job_for id kind timeout command other saved node_id name now h =
    if not (is_container_name name)
    then (invalid_name, h)
    else queue_on id kind timeout command other saved name now (node_by_id node_id h) h

-- How many jobs the node may run from now on, if the number is allowed, the node known and the row saved.
unfoldable pub set_parallel_jobs : Ident → ℕ → Bool → Hub → Option ℕ × Hub
set_parallel_jobs node_id asked saved h = elim (node_by_id node_id h) [
  | none ↦ (none, h)
  | some n ↦
      let jobs = if asked == 0 then recommended_parallel_jobs n.cpu n.memory_total else asked in
      if ltb max_parallel_jobs asked || not saved then (none, h) else (
        some jobs,
        record h {
          nodes = update (λ x. x.id == n.id) (λ x. record x { parallel_jobs = jobs }) h.nodes;
        },
      )
]
