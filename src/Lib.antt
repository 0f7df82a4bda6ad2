-- ===== src/Lib.antt =====
-- CAUSEWAY: a supervisor for proxy paths, and what it guarantees.
--
-- The program keeps, for each traffic class, one active path through a data plane (an adapter
-- process) to a node of the active subscription. A mixed listener forwards connections to the
-- installed path; the supervisor activates, checks, switches and retires paths; statistics of probes
-- rank the nodes; the state file keeps what must survive a restart.
--
-- The parts and their files:
--   Prelude      text as lists of codes, maps in key order, i64, results, parsing and sorting helpers
--   Events       src/events.rs, the bounded event ring
--   Peek         src/peek.rs, the classification of a first byte
--   Listener     src/listener.rs: Traffic (TrafficCounters), Throttle (AcceptErrorThrottle), Conn
--                (handle_conn), Paths (PathConnGuard with install_active and schedule_drain_with of
--                src/supervisor.rs, as a step relation on interleavings)
--   Config       src/config.rs: the sections and what applies to a class, Hosts (the direct hosts),
--                Validate (validate_at)
--   Dashboard    src/switch.rs: the lock on changes of the subscription, and the picker
--   DataPlane    src/dataplane.rs: Identity (the owner of a workspace as a name and as a marker),
--                Workspace (its clean-up), Acl (build_sslocal_acl)
--   Egress       src/egress.rs: Routes (parsing and preferred routes), Observer (StableEgressObserver)
--   Health       src/health.rs: Target (split_url, split_connect_target), Exchange (read_status_line and
--                the GET and CONNECT probes), Sampled (is_healthy_sampled)
--   Score        src/score.rs: NodeStats, score_cmp, challenger_wins
--   Siteprobe    src/siteprobe.rs: verdicts and the classification of status codes
--   State        src/state.rs: StateFile and its methods; Persist has load and save_atomic
--   Subscription src/subscription.rs: nodes and the conversion of manifest entries; Cache has the two
--                cache slots of a profile
--   Supervisor   src/supervisor.rs: Backoff (AutoRecoveryBackoff), Candidates (ranked_candidates,
--                profile_candidates), Activation (try_activate, install_active, try_candidates),
--                Switching (switch_node_locked, recover_after_health_failure, switch_to,
--                record_health_outcome, the turn of health_loop and the decision of probe_loop, activate_initial),
--                Sites (switch_for_site and its probes), Transaction (switch_subscription_locked: Daemon
--                is the shared state, Staging the path of each class, Publication what becomes
--                visible, Commit the order of it all)
--   Tests        the theorems at concrete inputs, with a fixed-point number, an insertion sort and a
--                codec for the parameters
--
-- How the code is read. A lock makes each call atomic, so a shared object is a value that its calls
-- pass on. Times and durations are nanoseconds in unbounded numbers; u64, u32 and u16 values keep
-- their wrap-around or saturation. Every question to the outside (a data plane's start and check, the
-- shutdown flag, a clock) is answered by a function of a counter that the question moves on. The
-- interfaces Float (f64), Sorting (sort_by), Json (serde_json) and the outcomes of file-system calls
-- are parameters; the laws that a theorem relies on stand among its hypotheses. Loops are structural
-- recursion; the doubling of the cooldown recurs on the doublings left, so no fuel is needed.
--
-- Not modelled: sockets, processes, TLS, YAML and JSON texts, logging, the drawing of the dashboard and the command
-- line; the checks of configured paths, the control protocol, the data planes' processes and
-- subscription fetching.
pub mod Config
pub mod Dashboard
pub mod DataPlane
pub mod Egress
pub mod Events
pub mod Health
pub mod Listener
pub mod Peek
pub mod Prelude
pub mod Score
pub mod Siteprobe
pub mod State
pub mod Subscription
pub mod Supervisor
pub mod Tests
