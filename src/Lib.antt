-- ===== src/Lib.antt =====
-- ASDL Hub: verification of the services that decide which job a node starts, what its report changes,
-- which logins are refused, and what becomes of an app that stops answering.
--
-- Parts of the program and the files that model them:
--   * internal/models: Models (the rows of the tables and the texts that they hold), Models.Capacity
--     (RecommendedParallelJobs, JobLimit), Models.Secrets (MergeMasked, MaskToken).
--   * internal/api/middleware/loginlimit.go: Auth.LoginLimiter (Blocked, Failed, Succeeded, recent), with
--     Window and History for the times that are kept and Limits for what they decide.
--   * internal/models/user.go, internal/services/settings_service.go and internal/api/middleware/auth.go:
--     Auth.Users (accounts, roles, CapRole, RequireRole).
--   * internal/services/session_service.go and auth_service.go: Auth.Sessions (deviceName, checkSession, the
--     ways a session ends), Auth.Tokens (ValidateToken, issueSession, Login, GeneratePermanentToken).
--   * internal/services/twofactor_service.go: Auth.TwoFactor (checkTOTP, checkSecondFactor) and
--     Auth.TwoFactor.Setup (Begin-, Enable-, Disable- and ResetTwoFactor, MFAUser).
--   * internal/services/cli_auth.go: Auth.CliLogin (Start, Approve, Deny, Poll), with Calls for sequences of
--     calls.
--   * internal/services/job_service.go: Jobs.Queue (nextJob, roomForAnotherJob), Jobs.Complete (Complete,
--     completeDeploy, removeStrayCopy), Jobs.Sweeps (failStuckJobs, cancelStaleInteractiveJobs, JobsInFlight,
--     Retry, redactEnvironment).
--   * internal/services/job_logs.go: Jobs.LiveLog (JobLogHub).
--   * internal/services/deploy_command.go: Deploy.Markers (ParsePortMarker, ParsePluginPorts).
--   * internal/models/validation.go, internal/services/placement.go and deployer.go: Deploy.Ports
--     (ParsePortMapping, usedHostPorts, fixedPortClash, preferredHostPort), Deploy.Dispatch (Dispatch,
--     prepareSnapshots).
--   * internal/services/rollback.go: Deploy.Rollback (deploymentBefore, autoRollbackTarget,
--     manualRollbackTarget, rollbackUnderway); tryRollback is in Health.Unhealthy.
--   * internal/services/placement.go: Placement (rankPlacements, score, hasHeadroom, placementCandidates, and
--     failoverTarget of health_service.go).
--   * internal/services/app_outages.go and node_outages.go: Outages.Apps, Outages.Nodes.
--   * internal/services/node_service.go: Nodes (nodeByAddress), Nodes.Score (calculateHealthScore),
--     Nodes.Handlers (Register, Heartbeat, sweepOffline, Remove, GoingAway).
--   * internal/services/maintenance_service.go: Nodes.Maintenance (SetMaintenance, containerJobFor,
--     SetParallelJobs), Nodes.Containers (ContainerLogs, RestartContainer, with shellQuote of
--     deploy_command.go, which Nodes.Quoted reads back); node_samples.go: Nodes.Samples (sampleDue,
--     recordSample, downsample).
--   * internal/services/node_uptime.go and status_page.go: Outages.Uptime (uptimePercent, uptimeOf, appStatus,
--     overallStatus), Outages.Tracking (outageTrackingSince, appTrackingSince, trimHeartbeats).
--   * internal/services/migration_service.go: Migrations (migrationStuck, cleanupStuckMigrations,
--     MigrateToNode), Migrations.Requests (MigrateProject, EnforceMasterNode, ListMigrations).
--   * internal/services/health_service.go: Health (restartInPlace), Health.Unhealthy (handleUnhealthyProject
--     and what it calls), Health.Rounds (checkAllProjects, recoverFailed, retryFailover).
-- A node polls the queue (nextJob), sends the output of the job that it runs (Append) and reports its end
-- (Complete), which settles the deployment, the project and the copies of the app on other nodes. Each
-- round of the health checker reads the projects, counts failed checks, and dispatches a restart, a
-- rollback or a failover as one more job of the queue.
-- Hub holds the tables that these share. Samples holds the rows of the examples. Prelude is the shared
-- base: tests on numbers, lists as tables, stable sorting, Go's maps.
--
-- How the model corresponds to the code:
--   * An identifier is a number, 0 for the empty text. An instant is a count of nanoseconds, 0 for Go's
--     zero time; a handler reads the clock once, where the source can read it again a moment later. A
--     text that the code takes apart is its list of code points. The load average is in hundredths.
--   * A table is the list of its rows in the order in which they were made. A query for one row takes the
--     first that fits, ORDER BY is a stable sort, LIMIT a prefix. A write whose error the source ignores
--     succeeds; what a write whose error it reads returns is an argument (`World`, `Supply`). The
--     jobs that other polls take while one is answered are an argument too (`raced`, Jobs.Queue.others_took).
--   * A goroutine that a lock serialises is a function of the state that the lock guards.
--   * Go's maps are association lists with one entry a key (Prelude.GoMap). Nothing depends on the order
--     in which Go visits a map.
--   * Loops are structural recursion on the list that they range over. The one loop without a bound, the
--     search for a free port, has one unit of fuel more than there are used ports, which is enough.
--   * A deploy's script, a notification's text and log lines are not modelled; the model records which
--     job is queued and which notice is sent.
--   * What signs and reads tokens is the interface Auth.Tokens.Jwt, whose law is that a token is read back
--     until it expires; bcrypt, HMAC, the cipher and JSON are Auth.TwoFactor.Crypto; new identifiers and
--     random texts are arguments. A client's headers and machine names are lists of bytes.
--   * Who answers a health check is an argument of a round (Round.answers). The choice of a failover's node
--     is a parameter of the checker, which Placement.failover_target fills; a node's uptime is an argument
--     there, which Outages.Uptime.uptime_of computes; float64 is an interface (Placement.Float) whose laws hold
--     for numbers that are not NaN.
--
-- Not modelled: the HTTP and websocket handlers around these operations, the encryption of the secrets'
-- columns, passkeys, nginx, WireGuard, plugins and what is stored of snapshots, the choice of the master
-- node, updates, the command line and the dashboard.
pub mod Prelude
pub mod Auth
pub mod Models
pub mod Nodes
pub mod Migrations
pub mod Hub
pub mod Deploy
mod Samples
pub mod Jobs
pub mod Outages
pub mod Placement
pub mod Health
