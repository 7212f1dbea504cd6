-- ===== src/Lib.antt =====
-- Soundgate: an admission gate for the effects of agents, its clients, and the experiments around it.
--
-- A gate (soundgate/src/lib.rs) admits each effect, named by its run and its key, at most once; it
-- holds effects that want approval, and fences cancelled and closed runs. A server keeps it in a
-- write-ahead log (soundgate/src/main.rs), Python clients talk to it by lines of JSON
-- (soundgate/python-bindings), a soak test attacks it with crashes (soundgate/scripts/soak_wal.py),
-- and the experiments measure how agents' models emit calls that a gate has to mediate (exposure,
-- soundgate/e2e), probe agent frameworks (probes) and collect incidents (corpus). A fuzzer, a lint and a
-- mutation score test the parts.
--
-- Which file models what:
-- Gate: soundgate/src/lib.rs, one function for each method of `Gate` (Gate.Defs); Gate.Phase has
--   the machine of five phases that the gate implements at each identity.
-- Wire: the requests and replies of soundgate/src/main.rs, a server as clients see it, and in
--   Wire.Laws the interface IsSafe that the clients' theorems assume and Node.Safe fills.
-- Node: `handle`, `event_for`, `recovery_barrier` of soundgate/src/main.rs over the log's records; in
--   Node.Bytes, `recovery_barrier` over its bytes, with serde_json's parser as a parameter
--   (Bytes.Durable joins the two); in Node.Auth, `decision_tag` and `verify` of soundgate/src/hmac.rs.
-- Client: soundgate/python-bindings/soundgate_client.py (`decision_tag`, `Verdict`, `_roundtrip`,
--   `decide`); Client.Agree compares its tags with the server's.
-- Mediation: soundgate/python-bindings/soundgate_langgraph.py.
-- Soak: soundgate/scripts/soak_wal.py: `Shared` (Soak.Shared), `call` and its oracles
--   (Soak.Worker), the script of a run (Soak.Run), `wal_census` (Soak.Census), the segments of
--   `main` (Soak.Segments) and its end (Soak.Final), and all together (Soak.Whole).
-- MockCluster: soundgate/scripts/mock_cluster.py: `apply_op` (Store), the nodes (Nodes).
-- Exposure: exposure/src/exposure: tasks.py (Tasks, Catalog), runner.py (Runner, Resume, Mock),
--   analyze.py (Analysis, Tables).
-- Tau: soundgate/e2e/taubench_exposure.py: tools and `classify` (Tools), `BudgetMeter` (Meter),
--   `run_episode` (Episode).
-- Corpus: corpus/src/corpus: seeds.py (Early, Late, Seeds), render.py (Render), enrich.py (Enrich); and
--   corpus: corpus_sweep.py (Sweep), classify_corpus.py (Classify), triage_corpus.py (Triage).
-- Probes: probes/src/agentprobe, one file for each framework, with _harness.py (Harness), and
--   probes-temporal: probe_temporal.py (Temporal), probe_temporal_gated.py (Gated), on the gate itself.
-- Fuzz: soundgate/scripts/fuzz_boundary.py: `send_raw` (Socket), the oracles, `run_G` and the canaries
--   (Campaign), `main` (Main).
-- Lint: scripts/mediation_lint.py (Visit), and the trees of scripts/manytool_fixture (Fixture).
-- Graphs: `gen_one` of randgraph/gen.py (Generate). Its walks have fuel 2 to the power of the number
--   of nodes: where each node weighs twice as much as the next one, it weighs more than its children,
--   which are later nodes.
-- MutationScore: soundgate/scripts/mutation_score.py: `str.count` and `str.replace` (Text), the list of
--   mutants, the phases and `main` (Run).
-- Prevalence: prevalence/tau_extract.py, the counts over the tasks of tau-bench.
-- Prelude: equality, sets, dictionaries and lists over native numbers. Examples: the theorems at
--   concrete inputs.
--
-- How the code is read: a method that changes an object returns the new object; an exception is a
-- result of its own. The 32 bytes of HMAC-SHA256 (one function for Rust and Python), the random
-- generator, the agents' models, tau-bench's environments and JSON are parameters, and so are
-- Python's regular expressions, str.lower and str.strip; what GitHub answers, and what a probed
-- framework logs and its caller sees, is data. Threads are sequences of steps: the soak's schedule
-- of faults and of other clients' requests comes before each call. Loops run over lists or count
-- down the number of turns that the code allows, so none needs more fuel than it has; a soak call
-- retries as often as its schedule says.
--
-- Not modelled: sockets, the batches of the log's writer thread, SHA-256 itself, floating
-- point (rates, Wilson intervals, times), the replicated gate, the frameworks that are probed,
-- the fuzzer's generators of malformed bytes, and the remaining scripts.
pub mod Prelude
pub mod Gate
pub mod Wire
pub mod Node
pub mod Client
pub mod Mediation
pub mod Soak
pub mod MockCluster
pub mod Exposure
pub mod Tau
pub mod Corpus
pub mod Examples
pub mod Fuzz
pub mod Graphs
pub mod Lint
pub mod MutationScore
pub mod Prevalence
pub mod Probes
