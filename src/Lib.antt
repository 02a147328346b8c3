-- ===== src/Lib.antt =====
-- The Memory Overcommitment Manager: a daemon that watches the host and the guests of a hypervisor
-- and tunes memory, processors and page sharing by rules.
--
-- How the parts work together: a Monitor asks its collectors for statistics at an interval and keeps
-- a history of rows (`Monitor.collect`). The guest manager keeps one monitor for each running domain
-- (`follow`). For a pass of the rules a monitor is copied to an Entity (`Monitor.interrogate`); the
-- policy, a program in a small Lisp, reads statistics and sets control variables on the entities
-- (`Store.evaluate`, which runs `eval`); the controllers then turn the control variables into calls of
-- the hypervisor interface (`process`). `PolicyEngine.do_controls` is such a pass.
--
-- The daemon reads its configuration (`load_config`), starts the threads and looks after them until one
-- has died or somebody stops it (`Loop.run`); its API hands calls to the policy engine and the monitors.
--
-- Which file models what:
--   Policy and Policy/*      mom/Policy/Parser.py and mom/Policy/Policy.py. Code: tokens and trees.
--                            Stack: VariableStack. Machine: the state of an Evaluator (scopes, user
--                            functions, the entities that the rules change). Builtins, Functions,
--                            Forms: the c_ methods and their docstrings. Dispatch: _dispatch.
--                            Evaluator: eval and default. Scanner: the rules of class Scanner. Grammar: class Parser, its productions with
--                            their actions, and get_code. Program: the function eval of a text.
--                            Expressions and Typing: a part of the language with a meaning and types
--                            of its own. Store: Policy.
--   Entity, Entity/Methods   mom/Entity.py
--   Monitor, Monitor/*       mom/Monitor.py, mom/HostMonitor.py and mom/GuestMonitor.py (Threads),
--                            mom/Plotter.py (Plotter)
--   GuestManager             mom/GuestManager.py
--   PolicyEngine             mom/PolicyEngine.py
--   Collectors/*             mom/Collectors/Collector.py (Selection), HostMemory.py, GuestQemuProc.py,
--                            HostKSM.py, GuestMemory.py, GuestBalloon.py, GuestCpuTune.py
--                            (GuestAnswers), GuestQemuAgent.py; Declared: the fields of the collectors,
--                            those whose names end in Optional, HostCpu.py and HostTime.py
--   GuestAgent/*             mom/Collectors/QemuGuestAgentClient.py
--   Controllers/*            mom/Controllers/Balloon.py, CpuTune.py, KSM.py
--   IoTune, IoTune/*         mom/Collectors/GuestIoTune.py and mom/Controllers/IoTune.py. Equality: ==
--                            on the limits, which are dictionaries.
--   GuestNetwork/*           mom/Collectors/GuestNetworkDaemon.py. Socket: its messages; the parent: the
--                            collector and a session of the server.
--   Daemon/*                 mom/__init__.py (Config: _load_config, _validate_config; PlotDir:
--                            _get_plot_subdir; Loop: run and shutdown), mom/RPCServer.py and
--                            mom/LogUtils.py (Server), mom/MOMFuncs.py (Api)
--   Hypervisor/*             mom/HypervisorInterfaces and mom/optional.py. Json: the answers of an API.
--                            Optional, Memoize (memoize of vdsmCommon.py), RpcBase (vdsmRpcBase.py), Rpc
--                            (the JSON-RPC, XML-RPC and JSON-RPC client interfaces, and their bulk forms), Vdsm
--                            (vdsmInterface.py), Libvirt (libvirtInterface.py).
--   Python/*                 what the program uses of Python's values, comparison, arithmetic, texts
--   Prelude/*                shared types and lemmas; Samples/*: tests and examples
--
-- A method is a function from its arguments and the state to its result and the state after it; an
-- exception is an `err`, and the state keeps what was done before it. A method that the code runs
-- under a lock is one step. Python's integers are unbounded, and so are the model's.
--
-- Fuel: the evaluator recurses on trees that `default` builds from user functions, which may
-- recurse without end, so `eval` has fuel, one unit for each level of nesting. `out_of_fuel` is
-- none of the program's exceptions. For expressions without user functions any fuel above the
-- depth is enough (see the results); Policy/Evaluator/Fuel compares evaluations with different
-- fuel. The client of the guest agent synchronises with one unit of fuel for each byte that is
-- left to read and one more: a round reads a byte or ends. `getfile` has fuel for its rounds, of
-- which a reply with fewer than 1024 keys needs one. The loops of the daemon and of the threads
-- have one unit of fuel for each round and one more.
--
-- Parameters: `Floats`, the operations of Python's float; for `get_code` the scanner and the
-- parser of the SPARK toolkit (`scan`, and `parse` with the promise `IsParser`: it returns the
-- value of some derivation if there is one, and else exits, or raises an IndexError if there are
-- no tokens), and for the store of policies `get_code` itself; what the threads do during the
-- daemon's rounds (`Observed`); the answers of the hypervisor interface (`get_vm_info`), whether
-- a thread lives (`lives`); what each collector declares and does in a round (`Collector`); for
-- the policy engine the file system (`read`, `list_dir`, `join`) and the import of controllers
-- (`import`); for the collectors what they read or are answered, and the import of a collector
-- (`load`); for the sockets what each call of send and recv answers (`Send`, `Recv`); for the
-- hypervisor interfaces what the API answers (`Vdsm.Api`, `Rpc.Api`, `Lib`), where the ids of
-- guests are texts and numbers are integers.
--
-- Not modelled: the attributes of Python's built-in types and the underscore methods of Entity,
-- which a rule could reach by a dotted name (a name is looked up in the published statistics and
-- in the rule-accessible methods); names that are no texts as arguments of Entity's methods, a
-- type error here; a monitor whose collectors could not be created; the log, the scheduling of
-- threads, the XML-RPC server of the Python library and its Unix transport; `%` in the values of
-- the configuration; digits other than the ASCII ones in the name of a plot directory; repl, which
-- reads a terminal; two references to one dictionary of a hypervisor's answer, but where
-- `getVmBalloonInfo` changes the dictionary that the table of guests holds; underscores in the
-- numerals that int() takes; that the guests of a pass are a view of a dictionary, a list here; limits
-- of the depth of recursion.
pub mod Collectors
pub mod Controllers
pub mod Daemon
pub mod Entity
pub mod GuestAgent
pub mod GuestManager
pub mod GuestNetwork
pub mod Hypervisor
pub mod IoTune
pub mod Monitor
pub mod Policy
pub mod PolicyEngine
pub mod Prelude
pub mod Python
pub mod Samples
