-- ===== src/Lib.antt =====
-- prisn: a model of the replicated core of the server, pkg/raft, of its scheduler, pkg/scheduler, of
-- its supervisor of services, pkg/supervisor, of its access control, pkg/auth and pkg/api, of its
-- cache of deployments, pkg/storage, of the deployments of a server, pkg/api, pkg/store and
-- pkg/validate, and of the contexts of its client, pkg/context, and of the cron jobs of its operator
-- for Kubernetes, operator/controllers; and what is proved of them.
--
-- The program runs a Raft cluster. A node keeps its log, a term and a vote; clients propose commands to
-- the leader, which appends them to its log and sends them to its peers; what a majority holds is
-- committed and applied to a state machine of deployments, versions, assignments and nodes. When the
-- log has grown long the state machine is saved as a snapshot and the log is cut, and a peer that is
-- too far behind receives the snapshot. Around this core each server lets requests in by their tokens,
-- starts the jobs whose cron schedules are due, keeps its services running, and holds the files of
-- deployments in a cache of bounded size. A server keeps its deployments in a table: a request is checked,
-- stored, and handed on to the supervisor, if it is for a service, or to the scheduler, if it is for a cron
-- job; the supervisor reports the states of services back into the table. A client chooses the server to
-- talk to among its contexts. In Kubernetes an operator starts the jobs of cron jobs.
--
-- Files of this development and the code they follow:
--   Base, Base/*          names of the libraries passed on; Boolean tests, lists by native index, words
--                         of 64 bits, Go's maps, integers
--   Context               pkg/context: the contexts of the client, RenameContext, Resolve; Context/Renaming
--                         holds the theorem, Context/Examples two contexts
--   Deployments           pkg/api/server.go: the state of a server and its requests
--   Deployments/Requests  the checks and the defaults of a creation
--   Deployments/Services  startService, stopService, loadExistingDeployments, handleSupervisorStateChange
--   Deployments/Handlers  handleCreateDeployment, handleGetDeployment, handleUpdateDeployment,
--                         handleDeleteDeployment, handleScaleDeployment; Rows, Created, Changed, Scaled,
--                         and Outcomes below it hold lemmas and theorems, Examples two deployments
--   Deployments/Events    the handlers, state changes and starts one after the other; Sound holds the theorem
--   Deployments/Following the theorems on the status of a deployment
--   Deployments/Pages     parsePagination, handleListDeployments
--   Operator              operator/controllers/prisncronjob_controller.go: getMissedRun; Operator/Runs holds
--                         its theorems
--   Operator/CronJobs     Reconcile, updateActiveJobs, cleanupOldJobs; Operator/Cleanup, Concurrency, Due and
--                         GivenUp hold lemmas and theorems, Operator/Examples a cron job
--   Raft/Discovery        pkg/raft/discovery.go: dnsDiscover, fileDiscover; Raft/Discovery/Seen holds the theorem
--   Raft/Types            pkg/raft/types.go
--   Raft/Log              pkg/raft/log.go: Get, GetRange, Append, TruncateAfter, TruncateAll, Compact,
--                         NewLog on the files; Raft/Log/Shape, View, End and Files hold its lemmas
--   Raft/Log/Frame        the bytes of raft.log: Append and load
--   Raft/Fsm              pkg/raft/fsm.go: Apply and Restore; Raft/Fsm/Active holds its invariant,
--                         Raft/Fsm/Untimed and Replicas what two servers have in common
--   Raft/Node             pkg/raft/node.go: the Node, state.json, quorumSize, membership, NewNode
--   Raft/Node/Vote        HandlePreVote, HandleRequestVote, isLogUpToDate
--   Raft/Node/Append      HandleAppendEntries
--   Raft/Node/Snapshot    HandleInstallSnapshot, HandleTimeoutNow
--   Raft/Node/Leader      becomeLeader, replicateTo, sendSnapshot, updateCommitIndex
--   Raft/Node/Propose     Propose, processBatch
--   Raft/Node/Apply       applyCommitted, maybeCompactLog, applyMembershipChange
--   Raft/Node/Campaign    startElection, runPreVote, startImmediateElection
--   Raft/Node/Transfer    findBestTransferTarget, the step down in GracefulStop
--   Raft/Ballots, Raft/Election, Raft/Replication, Raft/Commit, Raft/Proposals,
--   Raft/Applying, Raft/Snapshots, Raft/Target
--                         the theorems on these functions, each file named for its subject
--   Scheduler/Cron        pkg/scheduler/cron.go: ParseCron, parseField, shortcuts; Scheduler/Cron/Values,
--                         Bounds and Ends hold the theorems
--   Scheduler/Matching    matches and NextAfter; Scheduler/Search holds the theorem
--   Storage               pkg/storage/cache.go: ensureSpace, doPrime to the state warm, SetAssigned; Storage/Space
--                         and Priming hold the theorems
--   Storage/Archive       the format of archives: createWarmArchive, extractWarm
--   Storage/Examples      a cache of three deployments
--   Store                 pkg/store/store.go: the table of deployments; Store/Keys holds its lemmas
--   Validate              pkg/validate/validate.go; Validate/Names, EnvVars and Schedules hold the theorems
--   Validate/Examples     the checks at concrete texts
--   Supervisor            pkg/supervisor/supervisor.go: Add, supervise, startProcess, waitForExit,
--                         shouldRestart, calculateBackoff, emitStateChange; Supervisor/Backoff, Diagram
--                         and Policy hold the theorems
--   Supervisor/Examples   a service on concrete rounds
--   Auth                  pkg/auth/auth.go: roles, permissions, tokens
--   Auth/Table            pkg/store/store.go: the statements on the table of tokens
--   Auth/Access           pkg/api/auth.go: Authenticate, RequireAuth, RequirePermission; the middleware of
--                         pkg/api/server.go
--   Auth/Tokens           pkg/api/tokens.go: creation, revocation, deletion
--   Auth/Roles, Auth/Admission, Auth/Lifetime, Auth/Login, Auth/Settled, Auth/Governed
--                         the theorems; Auth/Guards and Auth/Issue read the answers of the handlers back
--   Auth/Examples         a small table of tokens
--   Scheduler/Jobs        pkg/scheduler/scheduler.go: checkAndRun, runScheduledJob, RegisterDeployment, and the
--                         statements of pkg/store/store.go on schedules; Scheduler/Due holds the theorems
--   Scheduler/Examples    cron expressions on concrete texts
--   Scheduler/JobExamples two schedules and their runs
--   Raft/Examples         a small log and small nodes, and the theorems at them
--
-- How the code is read. A handler holds the node's mutex, state.json included, so it is a function from
-- the node to the new node and the reply. A candidacy and the handling of a reply release the mutex before
-- they write state.json: Raft/Ballots has their parts as steps of their own, a change of the term and the vote,
-- a later write of what was read before, and the requests for votes; what must not come in between is a
-- hypothesis of its theorems. Calls to peers are not made: the message is a result, and a reply is an argument.
-- A node's files are fields of its record, which a crash keeps. Indices and terms are native numbers
-- with the wrapping of uint64 written out; `int(idx - firstIdx)` is a bit pattern whose upper half is
-- negative. JSON is a parameter: a decoder for each kind of command, of which nothing is assumed, and for
-- the bytes of raft.log a pair of functions that reads back what it wrote. The clock is a parameter too.
-- A Go map is an association list, in one of the orders in which `range` may visit it.
--
-- A statement of SQL is read as what it says on the list of a table's rows; where the
-- code handles its failure, an argument says whether it fails. A process, its exit,
-- the answers of the runner, the sizes of files and the times at which things are done come from outside,
-- as records of what happens around one turn of a loop. bcrypt, the random source, the parsers of
-- durations, container/heap and the calendar of package time are parameters, with what is documented of
-- them as hypotheses where a theorem needs it. A handler of tokens is a function from the rows to the
-- status and the new rows.
--
-- The database does not fail in the handlers of deployments. Foreign keys are enforced on the connection that
-- the pragma ran on and not on others of the pool: whether a deletion takes its schedules along is an
-- argument. The source, the runtime and the arguments of a deployment become the command that the supervisor is
-- called with; its environment and directory are left out, as are the fields of a request that no handler
-- of the model reads.
--
-- The operator's API server is a list of jobs; whether it refuses a call is an argument, as are the parser of
-- schedules and its calendar, of which a theorem assumes what is documented of Next: the first later
-- time at which the schedule fires, or the zero time if there is none. A time before the zero time counts as
-- the zero time.
--
-- Loops are structural, on the list or on the index they count down. Six take fuel: the reader of
-- raft.log, whose rounds consume four bytes each, so that one more than the number of bytes is enough;
-- the loop of a cron field with a step, for which one more than the number of values between the bounds
-- is enough if the step is positive; the search for the next time, which needs one more than the
-- number of minutes to its end; the loop of ensureSpace, which evicts an entry each time, so that one
-- more than the number of entries is enough; the search of the operator for the run that is due, which is
-- enough with one more than the nanoseconds it looks back; and the extraction of an archive, which needs
-- one more than the number of its files.
--
-- Not modelled: writing a file succeeds (only a crash between the two writes of a compaction is looked
-- at), timers and channels (a timer's reset is counted), the transport, the files of discovery, the waiting of
-- a leadership transfer, metrics, two goroutines at once in the supervisor, the scheduler or the cache, the
-- signals that stop a process, the extraction of the cache on a request, and the parts of the program
-- outside the files above: they are HTTP handlers, SQL, processes and operating system calls, or come
-- later.
pub mod Auth
pub mod Base
pub mod Context
pub mod Deployments
pub mod Operator
pub mod Raft
pub mod Scheduler
pub mod Storage
pub mod Store
pub mod Supervisor
pub mod Validate
