-- ===== src/Lib.antt =====
-- Formal model of the robine-ci runner, the Go program under runner-go/ that a machine runs to
-- execute the jobs of a robine-ci server.
--
-- The parts. The runner keeps a control channel to the server. An offer of a job that comes over the
-- channel is checked and taken by the application if it is idle (Offer, Application); a goroutine
-- then runs one attempt of the job (Executor/Attempt): it makes a workspace, downloads the source and
-- the secrets, and runs the steps one by one (Executor/Steps), each a process of its own
-- (Executor/Commands) with the variables of Executor/Environment. What a process writes goes through
-- the redactor (Redactor) and a log writer (Executor/LogWriter) to the server as numbered log
-- events; the attempt's own state goes there as attempt events. Cancellation, a lost lease and the
-- shutdown of the runner reach a job through the cause of its context.
--
-- The files, with the code in runner-go/internal/runner/ that they are about:
--
--  - Prelude: shared types, tests, lists, byte strings and signed integers; Run: the state monad.
--  - Redactor: redactor.go; `new_redactor`, `push`, `finish` and `consume` are newRedactor, Push, Finish
--   and consume. Rounds, Loop and Stream are the loop on a whole text and on chunks; Masks is the
--   description of a redacted text that the code is held against; Secrets is the order and the set of
--   the secrets; Correct and Overlap are the results.
--  - Offer: types.go, and validOffer of runner.go.
--  - Application: the state of runner.go and what is done under its mutex: `accept_offer`, `handle_event`,
--   `handle_heartbeat`, `cancel_with`, `stop_executions`, `finish`. World is the goroutines as a step
--   relation: an offer is asked for, accepted or not, run and finished, and events, heartbeats and
--   the shutdown come in between in any order. The cancel functions that are read under the mutex are
--   called after it, each call by a step of its own. Books, Invariant, Safety, Drain, Clean and Causes
--   are what holds on every schedule.
--  - Executor: sendLog, attemptEvent (runner.go) and the outcomes of executor.go. `Env` is what the code
--   calls; Keeping is what those calls keep.
--  - Executor/LogWriter: logWriter of executor.go, with its limit and its chunks.
--  - Executor/Environment: mergedEnvironment of executor.go, jobEnvironment of docker_executor.go.
--  - Executor/Commands: runCommand and runBuiltin of executor.go, exitCode of process_unix.go.
--  - Executor/Steps: runSteps of executor.go.
--  - Executor/Attempt: runNative, failPreparation and downloadSecrets of executor.go.
--  - Archive: safeArchiveName, safeWorkspaceRelative and workspacePath of archive.go, with filepath.Clean,
--    Join and Abs on Unix; Parts is splitting, joining and cleaning; Inside, Names and Relative are
--    where an entry of an archive and a path of a step end up; Limits is the count of expanded bytes.
--  - Archive/Extract: extractArchive and rejectSymlinkComponents, on a file system of which `Files` has the calls
--   and their documented effects; Walk and Confined are the results. Archive/Create: createArchive;
--   Entries and Bounded are the result. Anchors is paths in an absolute directory.
--  - Executor/Options and Executor/Builtins: stringList, and executeBuiltin with the rest of its options, of
--   executor.go; Verified is the result.
--  - Strings: what is used of Go's strings, strconv and sort.
--  - Config: internal/config/config.go: the configuration, its defaults and `validate`; Valid is what a valid one
--   has. Files is Load and Write on a file system of which `Disk` has the calls and their documented
--   effects, where different paths are different files, and Atomic what they leave. Commands is ParseCommand, Accepted what it has checked.
--  - Docker: docker_executor.go: the data, names and labels. Arguments, Services and Calls are its helpers,
--   decodeDockerServices and the single commands of the engine; Prepare, Steps, Cleanup and Attempt
--   are prepareDocker, runDockerSteps, cleanupDocker and runDocker with what they call; Reconcile is
--   reconcileDocker. Keeping and the modules called Records are what these keep of the
--   executor's state; Accepted, Waiting, Outcomes, Reports, Removed and Safe are the results.
--  - Channel: channel.go: decodeFrame, what Request and handleFrame do to the map of waiting requests,
--   websocketURL, reconnectDelay and parseStringSlice; Replies, Address and Backoff are the results.
--   Sessions is connect, disconnect and the goroutines in Request as a step relation; Moves, Once and Held are
--   what holds on every schedule.
--  - Transfer: http.go: transferClient.get and put, and Enroll; Whole and Enrolled are the results.
--  - Main: `run` of cmd/robine-runner/main.go, with the commands composed of Config, Transfer and the
--   disk; Settled is the result.
--  - Tests: the definitions on concrete inputs.
--
-- Numbers and fuel. A Go string and a byte slice are a list of byte values. The loop of `consume`
-- runs on the number of pending bytes and the loop of `deliver` on the number of bytes to send: every
-- round that goes on takes at least one byte off. The wait for a service has one round more than its
-- timeout has milliseconds; each round waits for 100. The product of the timeout with a million
-- nanoseconds, and the count of expanded bytes, are taken modulo 2 ^ 64 and read as int64s. Other
-- counters are natural numbers: the sequence of log events would need 2 ^ 63 of them to overflow.
--
-- Parameters. `Env` holds the calls of the operating system, of the channel and of the HTTP client:
-- errors and causes of contexts, replies, random message ids, the clock, processes and their output,
-- directories, downloads and the decoding of the secrets' document. Each call may change the outside
-- world in any way, so a context may end between any two calls. The program docker is one of these
-- calls, by its arguments, and the state keeps the list of them. Where an attempt runs, the unpacking of
-- the source and the built-in steps are arguments; they are modelled on a state of their own in
-- Archive/Extract and Executor/Builtins. url.Parse, encoding/json and the package flag are arguments where
-- they are used, archive/tar and compress/gzip are the entries of an archive that they give or
-- take, and `Http` holds the calls that http.go makes.
--
-- What is not modelled: writeDockerCopyArchive, which walks a directory and writes a tar archive;
-- SameServer of config.go; the handshake of channel.go and the loop that connects again; the request
-- of rejectOffer, the wait for executions with its timeout and the ticker of the reconciliation in
-- runner.go; the installation as a service, which is text of unit files and calls of launchctl and
-- systemctl; `main` with its signals and exit codes; and the server, which is written in Elixir.
pub mod Prelude
pub mod Redactor
pub mod Offer
pub mod Application
pub mod Run
pub mod Executor
pub mod Strings
pub mod Config
pub mod Docker
pub mod Channel
pub mod Transfer
pub mod Main
pub mod Archive
pub mod Tests
