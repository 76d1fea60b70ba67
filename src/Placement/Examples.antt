-- ===== src/Placement/Examples.antt =====
-- Three nodes and numbers in hundredths: the app's own node, one whose failover just failed, and a spare.
use asdl_hub.Prelude.{
  ℕ, ◌+◌, ◌-◌, ◌*◌, ◌/◌, max, ◌≡◌, refl, inl, true, false, none, some, [], ◌∷◌, arith, ltb, head,
  In, stable_sort,
}
use asdl_hub.Samples.{sample_node, sample_project}
use asdl_hub.Models.{Node, RunStatus, minute}
use asdl_hub.Hub.{Hub}
use asdl_hub.Deploy.Ports.{fixed_port_clash}
use asdl_hub.Placement.{
  Float, Candidate, Facts, candidate, can_take, placement_candidates, failed_lately, failed_targets,
  rank_placements, precedes, failover_target, text_less, score, has_headroom, recent_outage,
}
use asdl_hub.Placement.Order.{first_is_best}
use asdl_hub.Placement.Target.{MayTake, failover_target_sound}

abbrev pub hundredths : Float ℕ
hundredths = record {
  of_nat = λ n. 100 * n;
  hundredths = λ n. n;
  add = λ a b. a + b;
  sub = λ a b. a - b;
  mul = λ a b. a * b / 100;
  div = λ a b. 100 * a / b;
  larger = λ a b. max a b;
  less = λ a b. ltb a b;
  less_asym = λ a b h. ground arith;
  not_less_trans = λ a b c h k. ground arith;
}

abbrev tried : Node
tried = record sample_node { id = 2; hostname = "beta" }

abbrev spare : Node
spare = record sample_node { id = 3; hostname = "gamma"; health_score = 70 }

abbrev hub : Hub
hub = record {
  nodes = sample_node ∷ tried ∷ spare ∷ [];
  jobs = [];
  projects = sample_project ∷ [];
  deployments = [];
  migrations =
      record {
        id = 1;
        project_id = 5;
        container_id = 0;
        source_node_id = 1;
        target_node_id = 2;
        status = RunStatus.failed;
        job_id = 8;
        created_at = 90 * minute;
        completed_at = some (91 * minute);
      }
      ∷ [];
  oidc_deployments = [];
  project_plugins = [];
  app_outages = [];
  live_logs = [];
  notices = [];
  route_updates = 0;
}

abbrev facts : Facts hundredths
facts = record { uptime = λ n. some 9900; node_outages = []; master = some 3 }

goes_to_spare : failover_target hundredths facts (100 * minute) sample_project hub ≡ some spare
unfolding failover_target rank_placements placement_candidates can_take failed_targets failed_lately
    candidate recent_outage fixed_port_clash stable_sort
goes_to_spare = refl

failover_target_sound_example : MayTake hundredths facts (100 * minute) sample_project hub spare
failover_target_sound_example =
    failover_target_sound hundredths facts (100 * minute) sample_project hub spare goes_to_spare

abbrev beta : Candidate ℕ
beta = record { node = tried; uptime_7d = some 9900; outages_today = 0; is_master = false }

abbrev gamma : Candidate ℕ
gamma = record { node = spare; uptime_7d = none; outages_today = 1; is_master = false }

beta_first : head (rank_placements hundredths (gamma ∷ beta ∷ [])) ≡ some beta
unfolding rank_placements precedes has_headroom score stable_sort text_less
beta_first = refl

first_is_best_example :
    In beta (gamma ∷ beta ∷ [])
    × (has_headroom hundredths gamma ≡ true → has_headroom hundredths beta ≡ true)
    × (has_headroom hundredths gamma ≡ has_headroom hundredths beta
        → gamma.is_master ≡ true
        → beta.is_master ≡ true)
    × (has_headroom hundredths gamma ≡ has_headroom hundredths beta
        → gamma.is_master ≡ beta.is_master
        → ltb (score hundredths beta) (score hundredths gamma) ≡ false)
first_is_best_example =
    first_is_best hundredths (gamma ∷ beta ∷ []) beta gamma beta_first (inl refl)
