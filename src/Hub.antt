-- ===== src/Hub.antt =====
-- The Hub's database as the services use it, and what they tell the outside. A table is the list of
-- its rows in the order in which they were made; a query for one row takes the first that fits. What a
-- service asks the database to write is written, but for the writes whose error the source reads.
use asdl_hub.Prelude.{ℕ, ◌+◌, Bool, Option, List, [], ◌∷◌, ◌++◌, ◌==◌, if◌then◌else◌, first, update}
use asdl_hub.Models.{
  Ident, Node, Job, Project, Deployment, Migration, AppOutage, OidcDeployment, ProjectPlugin,
}
use asdl_hub.Jobs.LiveLog.{LogHub}

-- notify(Event{…}): the type of the event, the project and the node. The texts are not modelled.
pub data Notice : Type 0 where
  deploy_failed deploy_succeeded rolled_back app_down app_recovered node_online node_offline
        node_maintenance :
      Ident → Ident → Notice

pub record Hub : Type 0 where
  pub nodes : List Node
  pub jobs : List Job
  pub projects : List Project
  pub deployments : List Deployment
  pub migrations : List Migration
  pub oidc_deployments : List OidcDeployment
  pub project_plugins : List ProjectPlugin
  pub app_outages : List AppOutage
  pub live_logs : LogHub
  pub notices : List Notice  -- sent, the oldest first
  pub route_updates : ℕ  -- how often nginx was told to follow the projects

abbrev pub node_by_id : Ident → Hub → Option Node
node_by_id id h = first (λ n. n.id == id) h.nodes

abbrev pub job_by_id : Ident → Hub → Option Job
job_by_id id h = first (λ j. j.id == id) h.jobs

abbrev pub project_by_id : Ident → Hub → Option Project
project_by_id id h = first (λ p. p.id == id) h.projects

abbrev pub deployment_by_id : Ident → Hub → Option Deployment
deployment_by_id id h = first (λ d. d.id == id) h.deployments

-- db.Model(&project).Updates(…): the row with the project's identifier is rewritten.
abbrev pub update_project : Ident → (Project → Project) → Hub → Hub
update_project id f h = record h { projects = update (λ p. p.id == id) f h.projects }

abbrev pub update_job : Ident → (Job → Job) → Hub → Hub
update_job id f h = record h { jobs = update (λ j. j.id == id) f h.jobs }

abbrev pub notify : Notice → Hub → Hub
notify n h = record h { notices = h.notices ++ n ∷ [] }

abbrev pub routes_changed : Hub → Hub
routes_changed h = record h { route_updates = h.route_updates + 1 }

-- db.Create(job), which may fail: then there is no row.
abbrev pub create_job : Bool → Job → Hub → Hub
create_job saved j h = if saved then record h { jobs = h.jobs ++ j ∷ [] } else h
