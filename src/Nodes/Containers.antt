-- ===== src/Nodes/Containers.antt =====
-- internal/services/maintenance_service.go (ContainerLogs, RestartContainer) and shellQuote of
-- deploy_command.go: the shell commands about one container of a node, and what a shell reads of a quoted name.
use asdl_hub.Prelude.{
  ℕ, String, Bool, false, ◌&&◌, ◌||◌, not, Option, none, some, [], ◌∷◌, ◌++◌, ltb, ◌==◌,
  if◌then◌else◌, any, str_eq,
}
use asdl_hub.Models.{Ident, Time, Text, JobType}
use asdl_hub.Hub.{Hub, node_by_id}
use asdl_hub.Deploy.Markers.{codes}
use asdl_hub.Nodes.Maintenance.{JobAnswer, agent_too_old, container_job_for}

abbrev pub quote : ℕ
quote = 39

abbrev pub backslash : ℕ
backslash = 92

-- Every quote of the text is replaced by '\''.
unfoldable pub escape_quotes : Text → Text
escape_quotes [] = []
escape_quotes (c ∷ s) =
    let rest = escape_quotes s in
    if c == quote then quote ∷ backslash ∷ quote ∷ quote ∷ rest else c ∷ rest

unfoldable pub shell_quote : Text → Text
shell_quote s = quote ∷ escape_quotes s ++ quote ∷ []

abbrev pub restart_command : Text → Text
restart_command name = codes "docker restart " ++ shell_quote name

-- `shown` is the text of a number.
abbrev pub logs_command : (ℕ → Text) → Bool → ℕ → Text → Text
logs_command shown follow lines name =
    codes (if follow then "docker logs --follow --tail " else "docker logs --tail ")
    ++ shown lines
    ++ codes " --timestamps "
    ++ shell_quote name
    ++ codes " 2>&1"

abbrev container_job_timeout : ℕ
container_job_timeout = 60

abbrev follow_logs_timeout : ℕ
follow_logs_timeout = 600

abbrev follow_logs_capability : String
follow_logs_capability = "logs_follow"

-- The number of lines that is asked for, if it is a number in range.
abbrev pub lines_of : Option ℕ → ℕ
lines_of none = 200
lines_of (some n) = if ltb n 1 || ltb 2000 n then 200 else n

-- Whether the node is known and its agent cannot follow logs.
abbrev cannot_follow : Ident → Hub → Bool
cannot_follow node_id h = elim (node_by_id node_id h) [
  | none ↦ false
  | some n ↦ not (any (λ c. str_eq c follow_logs_capability) n.capabilities)
]

unfoldable pub container_logs :
    (ℕ → Text)
    → Ident
    → String
    → Bool
    → Option ℕ
    → Bool
    → Ident
    → Text
    → Time
    → Hub
    → JobAnswer × Hub
container_logs shown id other saved asked follow node_id name now h =
    let command = logs_command shown follow (lines_of asked) name in
    if follow && cannot_follow node_id h
    then (agent_too_old, h)
    else container_job_for id (if follow then JobType.logs_follow else JobType.command)
        (if follow then follow_logs_timeout else container_job_timeout) command other saved node_id
        name now h

unfoldable pub restart_container :
    Ident → String → Bool → Ident → Text → Time → Hub → JobAnswer × Hub
restart_container id other saved node_id name now h =
    container_job_for id JobType.command container_job_timeout (restart_command name) other saved
      node_id name now h
