-- ===== src/Lib.antt =====
-- A verification library for Digit Core: the part of the program that decides which modules run,
-- replaces them while the system runs, offers their services to one another, and decides who may
-- command it.
--
-- The parts, and the files of this library that model them:
-- - Base: byte strings, lists over the native numbers, decimal numbers, sscanf and fgets.
-- - Abi: the types of the STN-LABZ module ABI. Its constants, registry, loader and discovery are
--   parameters, since their source belongs to another repository.
-- - Qualification: src/qualification.c, the inventory of module versions that have passed their
--   qualification. Qualification/Store: src/qualification_store.c, its text file.
-- - Authority: src/authority.c, the decisions on activation, replacement and dispatch.
-- - Manager: src/module_manager.c. `activate_one` is one round of the loop of
--   digit_module_manager_qualify_and_activate, as a step that may end in a rejection; the rounds
--   share the registry, the inventory, its file and the audit.
-- - Hotload: src/hotload.c. Inspect has the qualification of a candidate in a child process, Promote
--   the replacement of an incumbent and its rollback, Poll the scan of the directory and the table of
--   fingerprints.
-- - Service: src/service_registry.c, the table of services and the barrier around a replacement. Each
--   function is one stretch under the lock, and Service/Barrier interleaves them by threads.
-- - CoreSa: src/core_sa.c, who is a system administrator.
-- - Runtime: src/runtime.c, the operational state of Core and the loop that calls the poll.
-- - AgentRoot: src/agent_root.c and src/identity_digit.c, the root that an identity must have.
-- - Audit: the rolling history of lifecycle events of src/audit.c.
-- - Channel: src/channel.c, channels and messages as lines of two files.
-- - Alert: src/alert.c, alerts and acknowledgements as lines of two files; Alert/Body has the message
--   that goes into the channel of alerts.
-- - Core: src/core_services.c, the services that Core offers: their registration in the table of
--   Service, and the handlers, which call Channel, Alert, CoreSa and AgentRoot.
-- - Arithmetic: modules/arithmetic/src/arithmetic.c, the expressions of two integers (operand,
--   operator_at, and the end of evaluate), those of two decimal numbers in Arithmetic/Decimal,
--   the choice of the engine in Arithmetic/Route, and poly_isqrt. An int64_t is an integer of
--   Base/Int there.
-- - Interface/Session: modules/interface/src/session_store.c, the sessions of the HTTP interface.
--
-- Manager, Hotload and Runtime call one another as the program does: Runtime polls, Poll promotes,
-- and Promote records versions through Qualification and saves them through Qualification/Store. The
-- registry calls of the ABI are parameters of Manager and of Hotload; Manager/Step has the law that
-- they keep the list of modules.
--
-- Bounds and fuel: the activation loop runs on fuel for STNLABZ_MODULE_REGISTRY_MAX rounds, which is
-- enough for a registry that fits its array. poly_isqrt runs on fuel 31, one for each test of its
-- condition, since its interval of a thousand million halves in each round. Versions are numbers below 2 ^ 32 where the file is read.
-- The loop of Runtime runs over the rounds that it is given and says when it still runs.
--
-- Not modelled: the byte loops that copy a candidate, the functions of the modules, printing, the
-- linear and the quadratic engine of the arithmetic module but for its square root, and the other
-- modules under modules/, which stand behind the services.
pub mod Base
pub mod Abi
pub mod Qualification
pub mod Authority
pub mod Manager
pub mod Hotload
pub mod Service
pub mod CoreSa
pub mod Runtime
pub mod AgentRoot
pub mod Audit
pub mod Channel
pub mod Alert
pub mod Interface
pub mod Core
pub mod Arithmetic
