-- ===== src/Lib.antt =====
-- vorto forwards TCP and UDP ports. A configuration lists the tunnels and chooses one of two
-- backends: in socket mode tasks of the process carry the data, in nft mode rules in the kernel do.
-- The foreground mode serves one configuration; the daemon follows the configuration file, and
-- brings the backend to each version of it without a restart of what is unchanged.
--
-- Prelude, Text, HashMap and Result hold what the parts share: Boolean tests, lists, texts as lists
-- of characters, hash maps as lists of entries in the order of an iteration, and results. Net is
-- the parser and the display of socket addresses of std::net. Fs is the file system as an
-- interface.
--
-- Config is src/config.rs. Config/Tunnel has its types and the operations on one tunnel, Config/Nft
-- and Config/Validate its validation, Config/Elsewhere the one of a build for another system, and
-- Config/Store its loading and saving. A YAML document is a record of the fields that it gives;
-- serde_yaml between texts and such records is a parameter.
--
-- Nft is src/nft.rs. Nft/Names, Nft/Ruleset and Nft/Script have NftNames, NftRuleset and the
-- script, Nft/Cli the calls of the nft command, which is an interface with an unknown state, and
-- Nft/Manager has NftManager. A method takes the manager and the state of the command and returns
-- the new ones, with a Boolean or a result in front where the code returns one.
--
-- Runtime is src/runtime.rs. Runtime/System has what it asks of the operating system and of tokio:
-- sockets, socket options, tasks by number, their handles and stop channels. Runtime/Tunnel has
-- ActiveTunnel, Runtime/Manager has TunnelManager, and Runtime/Watcher has run_config_watcher and
-- run_foreground, which join both managers and the loading of configurations. Runtime/Stopping has
-- TunnelManager::stop_all with ActiveTunnel::stop and wait_for_task_shutdown as a step relation
-- over the tasks that they spawn, and Runtime/Interrupted has TunnelManager::reconcile as one in
-- which tasks end by themselves between the steps of its loops; Runtime/History joins both to whole
-- histories of a manager. Runtime/Signal has wait_for_termination_signal. Runtime/Relay is what the
-- tasks of a tunnel do: Relay/Tcp has run_tcp_tunnel and drain_tcp_connections as a step relation,
-- in which the tasks of the JoinSet and the holder of the stop channel move between any two steps,
-- Relay/Connection has wait_for_shutdown and handle_tcp_connection by the arms that their waits
-- take, and Relay/Udp has run_udp_tunnel over its arms, with the sockets of the two UDP endpoints.
-- Relay/Handling has the task of one connection as a step relation beside the stop channel, with
-- the events of its steps.
--
-- Daemon is src/main.rs. Daemon/Pid has the PID file and platform_pid, Daemon/Cmdline recognises
-- the daemon by its command line, and Daemon/Control has start_daemon, stop_daemon and print_status
-- over Fs and an interface for processes. Daemon/Entry chooses the command by the arguments and
-- joins the commands with the editor, the foreground mode and the worker, which is the watcher
-- between the two ends of the PID file's guard. What a command prints is its report.
-- Daemon/OtherUnix recognises the daemon by the output of ps, which is an interface, where the
-- system is not Linux, and OtherUnix/Commands has the three commands there.
--
-- Editor is src/interactive.rs: Editor/Prompts has the prompts over the lines of input that are
-- still to come, Editor/Edits the edits of the configuration, Editor/Session the loop of
-- manage_config, and Editor/Dashboard the texts that it prints.
--
-- Version is build.rs and src/version.rs: the variables that the build script sets, and the report.
--
-- The other modules hold proofs and are named for what they prove. Examples runs the definitions on
-- concrete systems and applies the theorems to them.
--
-- Assumptions and bounds. The build is the one for Linux, but for Daemon/OtherUnix and
-- Config/Elsewhere. Loops are structural recursion, with two exceptions. The decimal display has
-- fuel, n + 1 for a number n, which is more than its digits. The loop of manage_config has as much
-- as there are lines of input, and every round takes one; at the end of the input it asks again
-- without end, which is an outcome of its own. In the step relations the grace period of a wait may
-- run out at any time while its task runs. Messages to the terminal are left out, but for the
-- dashboard, the help text and the version report. As a function, TunnelManager stops the tasks of
-- a JoinSet one after the other, and tasks end by themselves only between its operations (crash);
-- Runtime/Stopping and Runtime/Interrupted are without these two restrictions, and relate to the
-- functions by the theorems in the files named Schedule. In Runtime/Interrupted the stop and the
-- start of one tunnel are one step each. The order of a hash map is an unknown reordering of its
-- entries. The loops are given what happens at each round, up to the signal that ends them. Texts
-- of paths are UTF-8.
--
-- Not modelled: errors of the standard streams, the copying of bytes between TCP streams
-- (copy_bidirectional of tokio), the sessions of the UDP proxy (a library), the branches for
-- Windows, the refusal of NftManager on other systems than Linux, and the tests of the repository.
pub mod Prelude
pub mod Text
pub mod HashMap
pub mod Result
pub mod Net
pub mod Fs
pub mod Config
pub mod Nft
pub mod Runtime
pub mod Daemon
pub mod Editor
pub mod Version
pub mod Examples
