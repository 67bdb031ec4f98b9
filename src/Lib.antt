-- ===== src/Lib.antt =====
-- A model of netscope's core in antt, and what is proved of it.
--
-- netscope reads captured packets, reconstructs flows, discovers the nodes of the network, and asks
-- what a failure would do. The packets of a capture go through `reconstruct_flows` and
-- `discover_nodes` (or, batch by batch, through `IncrementalTopology`); the graph that results is
-- the input of `apply_failure_scenario`, and candidates for causal dependencies are that of
-- `propagate_failure`. A digital twin follows the snapshots of the graph, and a daemon keeps it
-- synchronized. Flow records that other devices export become packets of the same pipeline. The service
-- around it guards its routes with credentials, gives each tenant a directory, and mirrors what it
-- stores.
--
-- Files, and the code they model:
--   Models/Packet, Flow, Topology, Failure, Behavior, Snapshot, Dependency: the files with these names in
--     backend/app/models. A record for each pydantic model; a constructor call is a `build_` function that
--     raises ValidationError where a validator of the model does. Ranges of single fields that
--     pydantic checks are taken as given, save those of computed floats.
--   Models/Floats: Python's floats, with the functions that the code calls, are a parameter;
--     `FloatLaws` states the signs and bounds that the theorems use. Samples/Whole is an instance.
--   Nettrace/Fingerprint: backend/nettrace/fingerprint.py.
--   Nettrace/Reconstruct: backend/nettrace/reconstruct.py. Keys is `_flow_key`, Tcp
--     `_compute_tcp_state`, Sessions `_split_udp_sessions`, Units `derive_units`, Assemble
--     `_compute_features`, `assemble_flows` and `reconstruct_flows`; UnitFacts and Validity hold
--     proofs.
--   Nettrace/Topology/Discovery: backend/nettrace/topology/discovery.py.
--   Nettrace/Topology/Incremental: backend/nettrace/topology/incremental.py without `graph`.
--   Simulation/Injection: backend/simulation/failure_injection.py; Removal and Isolation hold proofs.
--   Simulation/Propagation: backend/dependency/failure_propagation.py and
--     `generate_causal_candidates` of backend/dependency/causal_candidates.py.
--   Simulation/Routes: backend/simulation/path_engine.py without `compute_alternate_paths`, with
--     networkx's shortest path and connected components and the arithmetic of costs as arguments; Found
--     holds proofs.
--   Simulation/Pipeline: backend/simulation/failure_propagation_pipeline.py; Impacts and Missing hold
--     proofs.
--   DigitalTwin/Merge, Sync: backend/digital_twin/twin.py and sync.py. What these read through other
--     modules (graphs of snapshots, the timeline, dependencies, differences) is the record `Archive`.
--   DigitalTwin/Daemon: backend/digital_twin/daemon.py. Daemon has the sections that its threads run under
--     the lock and the operations of the queue, Threads the threads, with a sequence of events for the
--     order in which their steps interleave; Coalescing, Counters, Accounts, Clients, Turns and Order hold
--     proofs.
--   Archaeology/Diff: backend/archaeology/diff.py; Events and Reports hold proofs.
--   FlowExport: backend/nettrace/flowexport. Bytes is the integers of `struct` and `to_bytes`,
--     Records is records.py, Ipfix/Fields, Encode and Decode are ipfix.py; NetflowV5 is
--     the decoder of netflow_v5.py and the `decode` of __init__.py; Failing, Errors, RoundTrip, InOrder and
--     Records/Totals hold proofs. `ipaddress` and the conversions of float times are parameters.
--   Service/Storage: backend/app/storage/replicated.py. Roots is the
--     directories, Commit `commit` and `verify`, Repair `repair` and `read_path`; Steps, Order, Hashes, Quorum
--     and the files below Repair hold proofs. A replica takes
--     part with the number of writes that succeed before its disk fails or the process is killed.
--   Service/Credentials: backend/app/auth/store.py and deps.py; Saving, Search, Lifetime and Guard hold
--     proofs. Service/Tenants: backend/app/tenancy; Ids and Scopes hold proofs. SHA-256, random tokens,
--     the clock and the resolution of paths are arguments.
--   Samples: concrete data, and the theorems applied to it.
--
-- Conventions. A Python str is the list of its code points; addresses are texts, as `str(ip)` gives
-- them. Times are natural numbers of one fixed unit. A dict is the list of its items in insertion
-- order, a set the list of its elements, and where the code iterates over a set the order is a
-- parameter. Exceptions are the constructors of `Error`. Loops are structural recursion, so there is
-- no fuel but in `decimal`, which has one round for each unit of the number and needs one for each
-- digit, in the slices of the IPFIX encoder, which have a round for each record, and in the loops of the
-- decoders, which have a round for each byte. A round of these takes at least one byte, and one
-- that is missing would be the error `out_of_rounds`. Files are arguments: what a function reads is an argument, what it writes is in its result.
--
-- Not modelled: live capture, the NetFlow v5 encoder, the HTTP API, the statistical models and the frontend.
pub mod Prelude
pub mod Models
pub mod Nettrace
pub mod Simulation
pub mod DigitalTwin
pub mod Archaeology
pub mod Samples
pub mod FlowExport
pub mod Service
