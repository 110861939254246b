-- ===== src/Lib.antt =====
-- The Temporal workers of the repository: workflows that a scheduler starts, and activities that
-- talk to Nomad, the forges, Vault, Postgres, S3 and the nodes. This library models the parts
-- that decide something and leaves the services as parameters: a record of answers, or requests
-- on a state of the service's own. What such a parameter answers is arbitrary unless a theorem
-- says otherwise.
--
-- Prelude: numbers, integers (Go's int, unbounded), lists, texts as lists of bytes, errors as
-- values (Result), and code that changes a state and may fail (Trace), whose state is often the
-- log of the calls made so far.
--
-- FanOut: the bounded fan-out over a buffered channel that the workflows share, as a step
-- relation; the other modules rely on its outcome and treat a fan-out as a map over its items.
--
-- Runner: the runner scaler, runnerscaler/workflows and runnerscaler/activities. Config has the
-- configuration and profileJobs, Keys the bucket keys and the metadata, Count
-- CountActiveRunners, Buckets bucketQueuedJobs, Shortfall dispatchShortfall and
-- startRunnerChild, Dispatch ListQueuedJobs and DispatchRunner, Child HandleRunner,
-- WaitRunnerDone and ReapRunner, Poll PollAndDispatch, which puts Buckets, Count and Shortfall
-- together, Modes the reading of a repository's mode, Queue the discovery of queued jobs
-- (shared/client/git/runners.go, shared/client/forgejo/forgejo.go).
--
-- Heartbeat: WithHeartbeat of shared/heartbeat.go, which the uploads, the dumps and the commands
-- on hosts run under.
--
-- Nomad: shared/client/nomad/nomad.go. Alloc has RunningAllocStubs, RunningJobIDs,
-- RunnerTerminal and IsJobNotFound, Wait WaitNomadAllocCount, Images RunningImages and JobImage,
-- Nodes ClientNodes, FindJobNode and NodeSSHAddress, Slots ActiveRunnerSlots, whose slots
-- Runner.Count counts, Client NewNomadClient and the calls that scale, dispatch and stop a job.
--
-- Vault: ReadKV, ReadKVMaybe, ReadKVField and WriteKV of shared/client/vault/vault.go over a
-- state of Vault's own, with the laws that the clients rely on; Token has the token of a worker
-- and its refresher.
--
-- Git: the GitHub App of shared/client/git, its tokens and repository secrets (App), and its
-- credentials from Vault (FromVault). Clients: the clients of SonarCloud, Forgejo, Consul and
-- Postgres under shared/client, each over the answers of the library or server below it;
-- Postgres.Reader has the documented format of connection strings.
--
-- Certs: certacquirer/. Issue has IssueWildcardCert, PublishWildcardCert and CertAcquirer over
-- the state of Vault and the calls to the ACME server.
--
-- MediaImport: mediaimport/. Arr has SonarrImport and RadarrImport, Reconcile ListCompleted and
-- the workflow, Http the requests to Sonarr, Radarr, Deluge and Jellyfin.
--
-- Maintenance: maintenance/. Bytes has HumanBytes and SizeReport, Steps the activities of
-- internal/nodes/saga.go, Saga their calls that RegistryGc (registrygc/workflow.go; its Collect
-- has RunRegistryGarbageCollect) and AptlyCleanup (aptlycleanup/workflow.go) call, NodeCleanup
-- the sweep of a node's data directories (nodecleanup/activities.go), NodeCleanup.Node.Run
-- CleanupNodeViaSSH, with the running jobs of Nomad.Alloc and the sweeps of Ssh,
-- NodeCleanup.Node.Fleet the workflow (nodecleanup/workflow.go), Postgres PostgresMaintenance
-- (postgresmaint/workflow.go).
--
-- Ssh: the sweeps of shared/client/ssh. Reclaim has sweep, RootfsPrune and BuildxVolumePrune,
-- Containerd ContainerdPrune, Docker DockerSystemPrune, Container RunContainer. Host is ssh.go:
-- Shell the quoting of command lines, Du the reading of sizes, Credentials what a connection
-- offers, Connection the commands and file operations of one connection.
--
-- Trivy: trivyscan/. Report has parseTrivyOutput, saveScanResult, storeScan and ScanImage, Scan
-- the workflow, Config the configuration.
--
-- Backup: backup/ and shared/client/s3store. Store has oldestObject, DeleteOldest and
-- CleanupOldS3Backups, Upload UploadToS3, Local CleanupOldBackups, Workflow Backup with its
-- legs, Dumps the snapshots and dumps on a disk, Quota the configuration and isQuotaError, S3
-- the listing by pages and the put.
--
-- Renewal: renewAll and RenewTokens of ghtokenrenewer/workflows; Sonar has ListRepos,
-- RenewRepoToken and RenewSonarCloudToken of ghtokenrenewer/activities; Enabled has
-- configureSonar of ghtokenrenewer/worker and RenewSonarCloudTokens.
--
-- Examples applies the theorems to concrete inputs.
--
-- Bounds: the loop of HumanBytes has fuel for six rounds, enough below 1024 ^ 7 and so for an
-- int64; the loop of UploadToS3 counts down the evictions that are left, from 3. The heartbeat
-- loop is recursion on the events that it takes, all other loops are recursion on a list. Byte
-- counts of the sweeps wrap around at 2 ^ 64, as Go's uint64 does.
--
-- Not modelled: the worker programs, telemetry, metrics and logging, the transports (SSH, HTTP,
-- SQL, S3, gRPC) and JSON, which are third-party code or input and output; retries and timeouts
-- of activities, which Temporal decides: an answer here is the last one, but for the attempts of
-- the SonarCloud renewal. Log lines and times of results are left out. The commands on a host
-- are whole answers: a second close of a session, when the context ends, and the race of a
-- cancelled dump with its removal are left out. A step of the node cleanup whose wait is cancelled
-- reports the error of the context, and all that it would ask the node to remove counts as asked.
mod Prelude
pub mod FanOut
pub mod Heartbeat
pub mod Nomad
pub mod Vault
pub mod Git
pub mod Clients
pub mod Certs
pub mod MediaImport
pub mod Runner
pub mod Ssh
pub mod Maintenance
pub mod Trivy
pub mod Backup
pub mod Renewal
mod Examples
