-- ===== src/Service/Schedule.antt =====
-- The schedule of each kind of start: the steps that the source lists, in its order, for the
-- settings that decide which of them are taken.
use ink_node.Base.{Bool, List, [], ◌∷◌, ◌++◌, if◌then◌else◌}
use ink_node.Prog.Trace.{Kind, Job, run_job}

abbrev pub connecting : Bool → List Kind
connecting telemetry = if telemetry then Kind.make_worker ∷ Kind.make_telemetry ∷ [] else []

abbrev pub reporting : Bool → List Kind
reporting telemetry = if telemetry then run_job Job.telemetry_worker ∷ [] else []

abbrev pub offchain : Bool → List Kind
offchain enabled =
    if enabled then Kind.make_offchain_workers ∷ run_job Job.offchain_workers ∷ [] else []

-- `new_partial` of the parachain.
abbrev pub partial_schedule : Bool → List Kind
partial_schedule telemetry =
    connecting telemetry
    ++ ((Kind.make_parts ∷ [])
        ++ (reporting telemetry
            ++ (Kind.make_pool ∷ Kind.make_block_import ∷ Kind.make_import_queue ∷ [])))

abbrev pub dev_partial_schedule : Bool → List Kind
dev_partial_schedule telemetry =
    connecting telemetry
    ++ ((Kind.make_parts ∷ [])
        ++ (reporting telemetry ++ (Kind.make_import_queue ∷ Kind.make_pool ∷ [])))

abbrev pub hardware : Bool → Bool → List Kind
hardware telemetry hwbench =
    if hwbench
    then Kind.show_hardware
      ∷ Kind.check_hardware
      ∷ (if telemetry then run_job Job.hwbench_telemetry ∷ [] else [])
    else []

abbrev pub collation : Bool → List Kind
collation validator = if validator then Kind.make_proposer ∷ run_job Job.aura ∷ [] else []

abbrev pub node_schedule : Bool → Bool → Bool → Bool → List Kind
node_schedule telemetry enabled hwbench validator =
    (Kind.build_network ∷ [])
    ++ (offchain enabled
        ++ ((Kind.run_node_tasks ∷ [])
            ++ (hardware telemetry hwbench
                ++ ((Kind.ask_overseer ∷ Kind.start_relay_tasks ∷ []) ++ collation validator))))

-- `start_parachain_node`.
abbrev pub parachain_schedule : Bool → Bool → Bool → Bool → List Kind
parachain_schedule telemetry enabled hwbench validator =
    partial_schedule telemetry
    ++ ((Kind.join_relay_chain ∷ []) ++ node_schedule telemetry enabled hwbench validator)

abbrev pub finalizing : Bool → List Kind
finalizing later = if later then run_job Job.delayed_finalize ∷ [] else []

abbrev pub dev_node_schedule : Bool → Bool → List Kind
dev_node_schedule enabled later =
    (Kind.make_import_queue ∷ Kind.build_network ∷ [])
    ++ (offchain enabled
        ++ ((Kind.make_proposer ∷ Kind.ask_slot_duration ∷ run_job Job.instant_seal ∷ [])
            ++ (finalizing later ++ (Kind.run_node_tasks ∷ []))))

-- `start_dev_parachain_node`.
abbrev pub dev_parachain_schedule : Bool → Bool → Bool → List Kind
dev_parachain_schedule telemetry enabled later =
    connecting telemetry
    ++ ((Kind.make_parts ∷ [])
        ++ (reporting telemetry ++ ((Kind.make_pool ∷ []) ++ dev_node_schedule enabled later)))

-- `dev::new_full`.
abbrev pub development_schedule : Bool → Bool → List Kind
development_schedule telemetry enabled =
    dev_partial_schedule telemetry
    ++ ((Kind.build_network ∷ [])
        ++ (offchain enabled
            ++ (Kind.run_node_tasks
                ∷ Kind.make_proposer
                ∷ Kind.seal_block
                ∷ run_job Job.instant_seal
                ∷ run_job Job.delayed_finalize
                ∷ [])))
