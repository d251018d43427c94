-- ===== src/Lib.antt =====
-- ASSCOR: a kernel that assesses hosts, calls modules and agents, and protects its configuration.
--
-- internal/resilience/circuit.go: one circuit breaker for each module. Resilience.antt has the
--   breaker as a record and one function for each of `RecordFailure`, `RecordSuccess`, `Allow` and
--   `Reset`; `call` puts `getBreaker` before them. `getBreaker` is also cut at its two locks into
--   `find_breaker` and `create_breaker`.
-- internal/kernel/circuitbreaker.go: the breaker around the kernel's calls, one record for each
--   service and method. Breaker/Defs.antt has the data, Window the sliding window, Machine the
--   operations on one record, Calls those on the map and the interceptor. There a call
--   is taken as a whole, so a list of steps is a list of calls that do not overlap. Breaker/Atomic.antt
--   cuts the calls at each load, compare-and-swap, locked block and unlocked write, on one record that
--   calls side by side share; Breaker/Atomic/Alone relates the two.
-- internal/semver/semver.go: Semver/Defs.antt has `Parse` and `String`, Compare the precedence,
--   Constraint the constraints. An int is its pattern of 64 bits, so the differences that `Compare`
--   returns wrap as in Go.
-- internal/securemode: SecureMode/Registry.antt has the agents' secrets (registry.go), Marker the
--   marker file (state.go), Password the rule for new passwords (password.go), Startup what the
--   controller decides from the marker and the vaults at its start (controller.go, vault.go).
--   Crypt has the encrypted file and its header (crypt.go), Verifier the password verifier, Vault
--   the layout of a protected file with its readable section. Disk.antt is the disk: every call of
--   the system (write, sync, rename, remove, read) is a step that a list of faults can make fail, and
--   a rule of Disk/Rules holds between any two steps, so also where the process is killed there.
--   Vault/Files and Controller.antt with its children are programs over it: the conversions of a
--   vault (vault.go), and EnterRun, ExitRun, SetPassword with its rollback and Unlock
--   (controller.go, persist.go), with the memory guard in Memory.antt (memguard.go).
-- internal/extmgr: ExtMgr/Spec.antt has the versions and constraints of extension_spec.go, Lifecycle
--   the registered extensions and the operations of extension_lifecycle.go, each on the map of
--   records under its lock. What saveState hands to the disk is read back in Reload.
-- internal/topology/multigraph.go: Topology/Graph.antt has the nodes, the edges and their changes,
--   Search.antt the breadth-first search of `Reachable`.
-- internal/commander/commander.go: Commander.antt has the commands that wait for each host and their
--   signature, Commander/Waiting.antt and Acks the abstract view of the queue; Commander/Verify.antt the
--   agent's check of a command (internal/agent/agent.go).
-- internal/heartbeat/heartbeat.go: Heartbeat.antt has the agents, what certificate each is
--   bound to, the revocations, and the two files, whose reads and writes can fail; Certs.antt
--   what binds and revokes certificates, Monitor.antt the agents'
--   liveness, Identity.antt the sequences of calls, Restart.antt and Identity/Saving.antt what the
--   files hold.
-- internal/kernel/lifecycle.go: Lifecycle.antt has the ten phases of a pass as a list of events, and
--   the loop of at most 100 passes.
-- internal/kernel/extensions.go: Extensions.antt has the extension points and the handlers at each,
--   Extensions/Order.antt their order.
-- internal/kernel/kernel_lifecycle.go: Plugins.antt has the order of the plugins by their
--   dependencies, Plugins/Boot.antt `Bootstrap` and `Shutdown` as the calls that they make. Places
--   in the list of plugins stand for Go's indices; the list is in the order of Go's map, any order.
-- Prelude.antt passes on the library's names, and in Prelude/ tests on numbers, lists, maps as
--   association lists, and what the program uses of the packages strings and strconv.
--
-- Times are numbers of nanoseconds, 0 the zero time, and an operation takes the time that
-- `time.Now()` returns in it as an argument. Texts are lists of bytes. Loops are structural, so no
-- fuel is needed: the lifecycle's loop recurs on the passes that are left of its 100,
-- printing a number on the order of the numbers, and the loop over the plugins on fuel, as much as
-- there are plugins: each pass puts another one in its place, so the theorems hold of its end. The
-- search of a graph has fuel for one more round than its edges have ends: a round takes a node from
-- the queue, and only ends of edges are put there, each once.
-- SHA-256, HMAC, Argon2id, AES-GCM, encoding/json and float64 are parameters. What theorems need of them
-- is among their hypotheses: a hash and a key have 32 bytes, a sealed text has 16 bytes more and
-- opens, and json reads back what it has written.
--
-- Not modelled: a loss of power, after which a disk may hold less than was synced (a process that is
-- killed leaves what its calls have done), the network, the kernel's buses, the assessment
-- algorithms, which are of floating point, and the checks of hosts. Of the parts above,
-- `ShortestPath` and the lists for display.
pub mod Breaker
pub mod Commander
pub mod ExtMgr
pub mod Extensions
pub mod Heartbeat
pub mod Lifecycle
pub mod Plugins
pub mod Prelude
pub mod Resilience
pub mod SecureMode
pub mod Semver
pub mod Topology
