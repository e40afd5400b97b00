-- ===== src/Lib.antt =====
-- A model of the ink! node: the program of node/src, which runs a development chain, a parachain
-- with instant seal or a node of a parachain, with the specifications of its chains, and the parts
-- of the two runtimes (runtime/src and parachain-runtime/src) that compute.
--
-- The program is glue around the Polkadot SDK. What the SDK does is no part of the model: every call
-- of it that acts on the world or can fail is a constructor of `Sdk.Calls.Call`, and every function of
-- it that changes nothing is a field of the record `Sdk.Types.Sdk`, a parameter of all definitions.
-- A function of the source is a program (`Prog.Prog`): it ends with a value, an error or a panic,
-- or makes a call and goes on with the reply. `Prog.run` runs a program in an environment, which
-- answers each call from the calls made before it; a theorem for all environments is about
-- whatever the SDK answers. An object behind an `Arc`, a handle or a channel is a number, which its
-- clones carry too, so that a theorem can say which client or which pool is meant. An asynchronous
-- function is the sequence of the calls that it awaits. Of the log lines only the warning about the
-- hardware is kept. Programs are finite trees, so there is neither fuel nor a bound.
--
-- The files:
--   Base, Sdk, Prog      shared names; the SDK's values, parameters and calls; programs, their steps
--                        (`Prog.Trace`), what all their calls have in common (`Prog.Always`), also
--                        where the replies settle it (`Prog.Settles`), programs without calls (`Prog.Quiet`), programs that never end well (`Prog.Fails`) and programs that
--                        end well while the replies keep to what is relied on (`Prog.Ends`)
--   Service              node/src/service.rs: `new_partial` (Partial), `start_consensus` (Consensus),
--                        `start_parachain_node` (Parachain), `start_dev_parachain_node` (DevParachain),
--                        `create_dev_inherent_data_providers` (DevInherents); node/src/service/dev.rs:
--                        `new_full` (Development). A long function is cut in two where the parts
--                        are built: `run_parachain_node` is the rest of `start_parachain_node`.
--   Service.Schedule     the steps of each start as a list; the starts and their lists are in Service.Start
--   Service.Wiring       which parts the calls of a start name
--   Service.Peers        the calls of a start with instant seal that concern peers and the relay chain
--   Service.Warnings     the warning about the hardware of a collator
--   Command              node/src/command.rs: `load_spec` and the defaults (Settings), the node that is
--                        started (Node), `run` with the subcommands (Run), and the settings of the relay
--                        chain (RelayChain). Start, Specs, Defaults, Tools and ParaId hold the
--                        theorems.
--   Command.Serves       what a subcommand hands to its own work (Subcommands)
--   Command.Finish       how a run with a subcommand ends with calls that succeed (Subcommands)
--   Command.Main         node/src/main.rs
--   Command.Success      a run of the node with calls that succeed, by Service.Success for its starts
--   Command.RelaySettings
--                        `SubstrateCli` of both command lines, `CliConfiguration` of the relay chain's,
--                        by the methods that command.rs writes
--   Cli                  node/src/cli.rs
--   Rpc                  node/src/rpc.rs
--   ChainSpec            node/src/chain_spec.rs and node/src/chain_spec/dev.rs, with the `json!` blocks as
--                        values of `Sdk.Json.Json`; Seeds is about the accounts of seeds,
--                        Genesis about the state that they describe, Success about when they can be made
--   Runtime              the constants (Units), the fee polynomial (Fees) and the pallets (Pallets) of
--                        runtime/src/lib.rs and parachain-runtime/src/lib.rs, assets_config.rs and
--                        revive_config.rs (Deposits), parachain-runtime/src/weights (Weights, with its
--                        tests in Sane),
--                        runtime/src/demo_precompile.rs (Precompile)
--   Runtime.Apis         the runtime APIs, `VERSION` and `EthExtraImpl` of runtime/src/lib.rs (Solo) and
--                        of parachain-runtime/src/lib.rs (Para), each for the functions of FRAME that
--                        its runtime has, and the benchmarks of the second (Benchmarks, Found)
--   Runtime.Messages     parachain-runtime/src/xcm_config.rs: the barrier (Admission), the origins of
--                        calls (Dispatch), the deposit of assets (Assets), who may send (Senders), the
--                        router (Router) and the configurations of the executor and of pallet_xcm
--                        (Executor), with the origins that are executed unpaid (Runtime.Origins);
--                        parachain-runtime/src/lib.rs: the queues of messages (Queues), the pallets that
--                        carry them (Transport) and who may change the collators (Collators). Trust, with
--                        Received, and Weighing are about the configuration of the executor.
--   Runtime.Configs      the configurations of the pallets that both runtimes have, with assets_config.rs;
--                        Consensus is about the session, Aura and collator
--                        selection pallets of parachain-runtime/src/lib.rs
--   Runtime.Schedules    the constants of the timestamp, Aura, session, collator and message pallets of
--                        parachain-runtime/src/lib.rs; Service.DevInherents.Accepted sets them against
--                        the inherents that the node makes
--   Runtime.Ethereum     the constants of the revive pallet in both revive_config.rs
--   Tests                concrete inputs, and the theorems at them
--
-- Machine integers: balances are `u128` and weights `u64`, with the wrap-around of a build without
-- overflow checks written out in Runtime.Words; the block number and the timestamp of
-- Service.DevInherents are a `u32` and a `u64`, with theirs in place.
--
-- What FRAME, xcm_builder and the wrapped `RunCmd` do is a parameter too: the records
-- `Runtime.Apis.Frame`, `Runtime.Messages.XcmBuilder` and `Command.RelaySettings.CliConfiguration`.
-- Where a theorem relies on what they document, it says so in a record of laws (`Builds`,
-- `Converts`, `Deposits`, `Ensures`, `Keeps`, `Sends`, `Executes`, `Weighs`, `EnsuresOrigins`).
--
-- Not modelled: the parsing of the command line, the types of the SDK that a pallet's Config merely
-- names, the API that the macro of pallet_revive adds to the runtimes, how the SDK trades the fees of
-- messages, runtime/src/demo_precompile2.rs, which no module includes, and the build scripts.
pub mod Base
pub mod Sdk
pub mod Prog
pub mod Runtime
pub mod ChainSpec
pub mod Service
pub mod Cli
pub mod Rpc
pub mod Command
mod Tests
