-- ===== src/Lib.antt =====
-- A model of the Rust crate landlock (src/), which restricts a thread with the Landlock feature of
-- Linux: a program says which access rights it handles, makes a ruleset, adds rules that allow some
-- of them below a path, and restricts itself, while the crate fits each request to the Landlock ABI
-- of the running kernel by a compatibility level.
--
-- - Uapi, Uapi.Words: src/uapi/mod.rs, with the constants and structs of src/uapi/landlock.rs that
--   the crate uses. The kernel, libc and std are the record `Sys`: its `World` is the state of the
--   system, which every call gets and gives back; most theorems assume nothing of it. `as_c_int` is
--   the cast of a system call's result to 32 bits.
-- - BitFlags: `enum AccessFs` of src/fs.rs, and the record `BitFlags`, which stands for
--   enumflags2::BitFlags<AccessFs>. Its laws are the documented ones: a set of flags is a 64-bit
--   word and each operation is that on words. BitFlags.Digits and BitFlags.Sets are the algebra of
--   sets that follows, BitFlags.Model an instance that meets the laws.
-- - Errors: src/errors.rs.
-- - Compat: src/compat.rs. Compat.Abi is `ABI`, Compat.Level is `CompatLevel` and the tailoring of
--   levels, Compat.State is `CompatState` and `Compatibility`, Compat.TryCompat is `CompatResult`
--   and `TryCompat`; a type that implements the trait is a value of the record `TryCompat`.
-- - Access: src/access.rs, at `AccessFs`, the one type that implements `Access`.
-- - Fs: src/fs.rs. Fs.Rights has the tables of access rights, Fs.File `is_file` and `PathFd`,
--   Fs.PathBeneath the rule `PathBeneath` and `path_beneath_rules`.
-- - Ruleset: src/ruleset.rs. Ruleset.Types has the structs and their small methods, Ruleset.Handle
--   `handle_access` (with `ruleset_handle_access` of src/fs.rs), Ruleset.Create `create`,
--   Ruleset.Rules `add_rule` and `add_rules`, Ruleset.Restrict `restrict_self`; Ruleset.Session
--   runs calls on a created ruleset one after the other, as a step relation. Ruleset.Session.Live
--   follows a ruleset at best effort on a kernel as documented, and Ruleset.Session.Paths is the
--   chain of calls of the example `restrict_thread` in src/fs.rs. Ruleset.Session.Calls has whole
--   programs as lists of requests and calls, which Ruleset.Session.Hard takes at the hard and
--   Ruleset.Session.GivenUp at the soft requirement; Ruleset.Session.Closed counts how often the
--   descriptor of a ruleset is closed, where the rules lend their descriptors.
-- - Kernel: what the kernel's documentation promises of the calls, as hypotheses. A `View` says
--   which descriptors are open on what in each state of the system, and `IsDocumented` has a law
--   for each call, in states in which no resource is used up. A kernel that is newer than the crate
--   counts as one of the last ABI, so the laws are on rights that the crate declares. Kernel.Calls
--   has the crate's wrappers under these laws.
-- - Scenarios: the module `tests` of src/lib.rs, with the helpers of the tests in src/compat.rs:
--   each closure that `check_ruleset_support` runs for every emulated ABI. `TEST_ABI` is an
--   argument, and the threads are the record `Threads`, whose law is that a thread returns what its
--   closure does. Scenarios.Rights has the words of the rights, Scenarios.Outcomes and
--   Scenarios.Endings what the closures return, Scenarios.Verdict when it is accepted.
--   Scenarios.Created is the test `ruleset_created_attr` of src/ruleset.rs, Scenarios.Unsupported
--   are the tests `ruleset_unsupported` and `ruleset_add_rule_iter` there, Scenarios.IgnoreAbi is
--   `ignore_abi_v2_with_abi_v1`, Scenarios.Promises are the two examples that the documentation of
--   the trait `Compatible` in src/compat.rs gives.
-- - Sandboxer: examples/sandboxer.rs, `PathEnv` and the part of `main` that restricts the thread. The
--   environment is a function from names to values. Sandboxer.Variables and Sandboxer.Endings
--   follow it on a kernel as documented.
-- - Prelude: shared names, results and errors, integers, bits. Tests: concrete systems, and runs.
--
-- A builder step takes the state that it changes, a ruleset and the system, and returns a result
-- with the new state, also on an error, as a caller that lent the ruleset goes on with it. What an
-- owned ruleset does on an error, its drop, is written out in `add_rule_owned` and `add_rules`. The
-- loops run over lists, so nothing needs fuel. An iterator is the list of its steps.
--
-- Not modelled: the generated rest of src/uapi/landlock.rs, the other unit tests beside the code,
-- the messages of errors, the deprecated `Ruleset::new`, the `assert!` under cfg(test), and the
-- closing of the descriptor that a rule owns; of the sandboxer, its arguments, its usage text and
-- the command that it runs.
pub mod Prelude
pub mod Uapi
pub mod BitFlags
pub mod Errors
pub mod Compat
pub mod Fs
pub mod Kernel
pub mod Access
pub mod Ruleset
pub mod Sandboxer
pub mod Scenarios
mod Tests
