-- ===== src/Lib.antt =====
-- The discovery of R installations: a JSON-RPC server that configures locators, runs refreshes and
-- reports the installations that it finds.
--
-- The server reads frames from its standard input (crates/ret-jsonrpc/src/server.rs), dispatches each
-- message to a handler, and runs the handlers of crates/ret/src/jsonrpc.rs on threads of their own,
-- of which a request limit admits 32 at once. A refresh registers with the refresh coordinator: one
-- refresh runs at a time, requests with its key join it, and others wait. What locators find goes
-- through a builder (crates/ret-core/src/r_installation.rs) to a caching reporter
-- (crates/ret-reporter/src/cache.rs), which merges reports of one installation
-- (crates/ret-reporter/src/installation.rs) and passes the first one on, while the configuration has
-- the generation that the refresh began with.
--
-- A refresh searches directories recursively (crates/ret/src/find.rs) for executables
-- (crates/ret-r-utils/src/executable.rs), and identifies each by what the locators and R say of it
-- (crates/ret/src/locators.rs). What R said is cached for each executable, in memory and in a file
-- (crates/ret-r-utils/src/cache.rs, fs_cache.rs); R runs in child processes that the server's end
-- reaps (process.rs).
--
-- The parts and their files:
--   Base           names, Boolean tests, lists, texts, orders with sort and dedup, equality tests
--   Tables         hash maps of the standard library
--   LocatorCache   LocatorCache of crates/ret-core/src/cache.rs; Agreement has threads that call it
--                  as steps, Refinement a client's view of it
--   Search         the recursive search of crates/ret/src/find.rs
--   Executables    crates/ret-r-utils/src/executable.rs
--   Identify       crates/ret/src/locators.rs and crates/ret/src/resolve.rs, with REnv of
--                  crates/ret-core/src/env.rs
--   Requests       handle_find and handle_resolve of crates/ret/src/jsonrpc.rs, which compose the
--                  search, the identification and the reporter; Threads has the interleavings of
--                  the threads of a batch
--   ProbeCache     an entry of crates/ret-r-utils/src/cache.rs and its file, of
--                  crates/ret-r-utils/src/fs_cache.rs; Registry has the table of entries
--   Probes         the registry of crates/ret-r-utils/src/process.rs, one critical section, lock,
--                  turn of terminate or event of the operating system a step; Guarded and Shutdown
--                  have what the shutdown leaves, Liveness what it waits for, and Output the loop that
--                  polls a child
--   Coordinator    RefreshCoordinator and RefreshGuard of crates/ret/src/jsonrpc.rs, one function for
--                  each critical section; Protocol has the threads of handle_refresh as steps on a
--                  System, Replies the loop finish_replies
--   RequestLimit   RequestLimit and RequestPermit of the same file, one atomic operation a step
--   Configuration  apply_configuration, GenerationGuardedReporter, build_refresh_config and
--                  expand_configured_directories of the same file
--   Strings        what the code uses of str: trim, split_once, from_utf8, parse, lines
--   Framing        read_message, and write_message of crates/ret-jsonrpc/src/lib.rs
--   Rpc            handle_request and serve of crates/ret-jsonrpc/src/server.rs
--   Paths          PathBuf as an interface, norm_case of crates/ret-fs/src/path.rs
--   Installation   the data of crates/ret-core/src; Arch, Builder and Merge, the latter for
--                  crates/ret-reporter/src/installation.rs
--   Reporter       CacheReporter and get_installation_key of crates/ret-reporter/src
--   Glob           crates/ret-fs/src/glob.rs
--   RVersions      the r-versions files of crates/ret-rversions/src/lib.rs; Locate has its locator
--   Modules        find_modulecmd, parse_r_modules and what they call in
--                  crates/ret-module/src/lib.rs
--   Shell          crates/ret-core/src/shell.rs
--   Tests          runs on small inputs
--
-- A mutex is its state and whether it is poisoned; a panic is a constructor of Outcome. Texts and
-- bytes are lists of numbers, a hash map is an association list with one value for a key. The target
-- is Unix on a 64-bit machine.
--
-- Fuel: reading a header and serving take the length of the input plus one, since each turn consumes
-- a byte or ends; expanding braces takes one more than the closing braces, of which each turn removes
-- one; finish_replies takes one round for each batch of newcomers and one more;
-- the recursive search takes two turns more than the product of the canonical directories and of
-- the most that one adds. That this is enough is part of the results.
--
-- Parameters, for code that is not the repository's: the JSON parser, the glob crate, paths and the
-- file system, whose answers may differ from one operation to the next; and the hash that names a
-- cache file. In Identify a locator is its try_from, and running R, with its cache, is a function
-- from an executable to what R said of it; in Requests the order in which threads report is an
-- argument, any interleaving of what each reports; in Configuration a locator and the cache directory
-- enter as operations that may panic.
-- Not modelled: the locators of the package managers, which walk the file system and call commands;
-- running R and reading its metadata; telemetry, logging and printing; the Windows target.
pub mod Base
pub mod Tables
pub mod LocatorCache
pub mod Search
pub mod Executables
pub mod ProbeCache
pub mod Probes
pub mod Coordinator
pub mod RequestLimit
pub mod Strings
pub mod Framing
pub mod Rpc
pub mod Paths
pub mod Installation
pub mod Reporter
pub mod Identify
pub mod Requests
pub mod Glob
pub mod RVersions
pub mod Modules
pub mod Shell
pub mod Configuration
pub mod Tests
