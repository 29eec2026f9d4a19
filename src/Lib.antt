-- ===== src/Lib.antt =====
-- lecrev runs functions: clients deploy function versions and invoke them, a global scheduler
-- hands each execution to a region, the coordinator of the region places it on a connected host,
-- and the host reports back. This library models the services from the HTTP interface to the agent
-- on a host, with the store that they share.
--
-- Domain, Errors (internal/domain, internal/store/errors.go): the records and enumerations, and
-- the errors that the code compares with errors.Is. Times are nanoseconds of a clock as natural
-- numbers, the zero time is 0, and bytes are a list.
-- Store (internal/store/memory/store.go): the in-memory store. The struct is the record Store,
-- each method a function from the store to an answer and the store after it; a method holds the
-- mutex, so it is one step. A Go map is an association list (Maps) in the order in which this run
-- iterates over it. Store.Backend is the interface of internal/store/store.go as its clients use
-- it, with the in-memory store as an implementation; Store.Invariant has all writing methods as
-- one type of calls.
-- Scheduler (internal/scheduler/service.go): Admission is DispatchExecution with quota and
-- idempotency keys and RetryExecution, Rank is rankDispatchers, Dispatch is dispatchJobAttempt,
-- scheduleNext and recoverStaleScheduling, Direct is ExecuteDirect and PrepareFunctionVersion. The
-- regions are dispatchers that may read and write all of the shared state. What a call reads from
-- the clock and draws as identifiers is the record Env. The hash of a request is a parameter.
-- Coordinator (internal/coordinator/service.go): Service has the sessions and messages, Capacity
-- the counts and the region snapshot, Node the coordinator beside the shared store, Reserve is
-- pickHost and what gives a slot back, Hosts is registration, heartbeats, drain, loss and reaping,
-- Assign is assignExecution, PrepareFunctionWarm and the start of ExecuteDirectStream, Updates is
-- handleAssignmentUpdate with the cost record, Wait is the loop of ExecuteDirectStream that waits
-- for updates. The coordinator of a region implements the scheduler's dispatcher.
-- Build (internal/build): Requests is normalizeDeployRequest with its validation, Metadata the
-- metadata and what is stored of a request, Recorder the build log, Publish the part of
-- ProcessBuildJob from the prepared bundle to the ready version with its default trigger, Process
-- the rest of ProcessBuildJob with its failures, Create is CreateFunctionVersion with quota and
-- idempotency keys, Replicate the RegionReplicator. What prepareBuildOutput makes of a request,
-- JSON, SHA-256 and net/url are parameters. Without a bus a deployment runs its build at once;
-- with one, a worker runs ProcessBuildJob on the stored job.
-- NodeAgent (internal/nodeagent/service.go, internal/timetrace/trace.go): State has the agent, the
-- driver it is given and what it sends, Slots the reservation, release and drain of slots, Trace
-- the trace of an execution, Limits the bounds on logs and output, Bundles the cache of bundles
-- and the archive of results, Messages the registration and heartbeats, Execute is
-- executeAssignment, with the panic of a write into a nil map, Prepare is prepareSnapshot and the
-- messages that Run handles. The coordinator is what receives the updates.
-- Bus (internal/dispatch/memory.go, internal/build/memorybus.go): the buses in memory. The
-- execution bus stands with the goroutines that use it: a step is what one of them does under the
-- lock or on one channel, so that a publisher's lookup and its send are two steps, and a send on a
-- closed channel is a panic that ends the process.
-- Api (internal/httpapi): Status is writeServiceError, Auth the API keys and the projects that a
-- tenant may touch, Text the normalised texts and numbers of requests, Triggers the handlers that
-- make projects and triggers and that start executions, Results the logs and outputs of executions
-- and the wait for one, Deployments the summaries and listings, Reads the handlers that read
-- builds, executions and deployments, Projects the ones that list projects and what is in them.
-- Handlers take decoded requests. They use the scheduler's and the store's operations as they are
-- modelled there.
-- Recovery (internal/recovery/service.go): attempts whose lease is over. Secrets
-- (internal/secrets): the scoped resolver, its in-memory provider and the token check of the
-- proxy. Regions (internal/regions/catalog.go): the catalogue of regions. Artifact
-- (internal/artifact/keys.go, internal/artifact/store.go): object keys, and the object store in
-- memory. Network (internal/firecracker/microvm/network_pool.go): the pool of tap devices and the
-- subnets of a tap network, with uint32 arithmetic written out modulo 2^32.
-- Prelude, Maps, Sorting: Boolean tests, Go's int, strings, maps and sort.SliceStable. Tests: the
-- theorems at concrete inputs.
--
-- All loops are recursive over lists, over texts, or over a number of rounds that the code fixes,
-- so that no fuel is needed: the default trigger of a version is tried three times, and a wait
-- polls as often as its context allows. Goroutines that outlive a call are functions of their own
-- (retry_in_background) or run where they are started (the archiving and warming behind an
-- execution). A final update of a direct invocation that finds the channel full waits beside it,
-- and takes the place that the reader frees. The wait of a direct invocation is looked at for a
-- number of rounds, and one round more than there are updates is enough for it to end. A waiting
-- acquisition of a device is one pass of its loop.
--
-- Not modelled: the PostgreSQL store (SQL), S3 and tar archives, NATS, the preparation of a build
-- (git, package managers and the Next.js site, which run processes on files), the Firecracker
-- driver and the node runtime (processes, files and sockets), transport, leadership, metrics and
-- start-up code, and the generated protocol. In the scheduler the loops of Run and
-- schedulePending, in the coordinator the receive loop of Control, in the node agent the stream
-- and its timers are left out. Of the HTTP interface, routing, JSON, cookies, websites, the
-- handlers over regions and hosts, and the handler of HTTP triggers with its streaming are left
-- out.
pub mod Prelude
pub mod Maps
pub mod Domain
pub mod Errors
pub mod Sorting
pub mod Store
pub mod Artifact
pub mod Regions
pub mod Recovery
pub mod Secrets
pub mod Network
pub mod Scheduler
pub mod Build
pub mod Coordinator
pub mod NodeAgent
pub mod Bus
pub mod Api
pub mod Tests
