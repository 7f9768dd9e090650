-- ===== src/Lib.antt =====
-- A model of WSLPad, a desktop application that shows and manages the Linux distributions of WSL on
-- a Windows machine. The main process polls a distribution through commands, keeps one snapshot of
-- what it learnt, judges it, and carries out the file operations of its explorer; the renderer draws.
-- The model has the parts that decide something.
--
-- Parts and files, with the code that each is about:
--   Base        Booleans, lists, texts (lists of UTF-16 code units), signed integers and results.
--   Settings    the rows of the settings table, in src/shared/types.ts.
--   Shell       src/main/wsl/escape.ts: shellQuote, shellQuoteAll, the guards on names and paths.
--               Shell/Words is an independent reading of a command line, as a POSIX shell splits it.
--   Boundary    src/shared/path-boundary.ts: normalizeAutomountRoot, classifyPathSide, and the rest.
--   WslConfig   src/main/wsl/wsl-config.ts: parseIni (Ini), KNOWN_KEYS and findKnownKeys (Catalog),
--               editDistance and suggestKey (Distance), compareVersions (Versions), parseSize and
--               valuesMatch (Values), observeEffective (Observe), collapseDuplicates and
--               declaredSetting (Reconcile, Reconcile/Notes), reconcileSettings (Reconcile/Table).
--               It uses Boundary for the root of the mounts, and Settings for its rows.
--   Polling     src/main/state/polling.ts: PollingScheduler, as a record of its fields and of the
--               event loop's intervals; each method is a function on it, and Reaches is the relation
--               of the states that calls and ticks lead to.
--   Explorer    src/main/explorer: path-convert.ts (Paths), listing.ts (Outcomes for its failures, Listing for the rest),
--               the loop that runCopyMove, runImport and runExport share (Loops), operations.ts
--               (Operations) and transfer.ts (Transfer). Commands are quoted by Shell. An instant that
--               the source prints in ISO 8601 is its count of milliseconds.
--   Masking     src/shared/masking.ts and src/main/mcp/masking.ts: the names, values and files that are
--               secret, and maskTextFileContent, line by line.
--   Ports       src/main/wsl: reachability.ts (Reach), ports.ts (Listening), windows-ports.ts (Windows,
--               Collector, Correlate) and portproxy.ts (Proxy). A collector is a record of its
--               variables; what netstat, tasklist and netsh print or throw is given to each call.
--   Snapshot    the records of a dashboard, in src/shared/types.ts, that Doctor, Warnings and Recovery read.
--   Warnings    src/main/state/warnings.ts: computeWarnings, one function for each group of warnings.
--               It uses Boundary for the sides of paths, and the list of failures that Store keeps.
--   Recovery    src/main/state/recovery.ts: findVsCodeServerProcesses and buildRecoveryCheck.
--   Workflows   src/shared/recovery-workflows.ts: the checks of names and paths and the commands. Its
--               Arguments is an independent reading of a command line, as a Windows program splits it:
--               backslashes count before a quote, and one space outside quotes parts two arguments.
--   Store       src/main/state/store.ts: runProbe, distroResponsive and liveness on a ProbeState,
--               noteRunnerFailure and clearRunnerFailure on the list of names, applyDistroList,
--               setDistro and recomputeWarnings on a StoreState (Selection), and what a refresh takes
--               hold of before it waits, what its collectors write, and the end of refreshFast (Tiers).
--               Events puts these in sequence: lists and choices come in while a refresh waits. Which
--               object of sections is meant is a number that grows with each new object. It joins
--               ports by Ports and warns by Warnings. Polling asks it.
--   Doctor      src/shared/doctor.ts: the nine checks (Workspace, Network, Runtime), the masking and
--               the report (Report).
--   Tests       runs of the definitions, and the theorems at concrete inputs.
--
-- How code becomes definitions: a function of the source is a function of the same name in snake
-- case; a class or a closure with variables is a record of them that its functions take and return;
-- a thrown error is `err` of a result; a regular expression is a function on the text, written next
-- to the place that uses it. A distribution that runs commands is a parameter `run_in_distro` with a
-- state of its own: it may answer anything, throw, and change its state. Whether an operation is
-- cancelled is a test on that state, since time passes for a loop only while it waits for a command.
-- A loop over a list is recursion on the list, so that every loop ends; `show` prints a number on as
-- much fuel as the number and one, and a number has fewer digits than that.
--
-- What is simplified: texts change case in the ASCII letters only; numbers are exact, where the
-- program goes through doubles (sizes with a fraction, very long runs of digits); `localeCompare` is
-- a parameter of the order of rows; the load of a processor is counted in tenths of a percent; an
-- error that an operation reports is its message; the records of Doctor have the fields that
-- its checks read. What is not modelled: the commands and parsers of the collectors, the rest of
-- the store of snapshots, the console, the MCP server, the shell of the application and the renderer.
pub mod Base
pub mod Settings
pub mod Shell
pub mod Boundary
pub mod WslConfig
pub mod Polling
pub mod Explorer
pub mod Masking
pub mod Ports
pub mod Snapshot
pub mod Warnings
pub mod Recovery
pub mod Workflows
pub mod Doctor
pub mod Store
mod Tests
