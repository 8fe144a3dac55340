-- ===== src/Cli.antt =====
-- cmd/dlvpp: the command line and the interactive session.
pub mod Comments
pub mod Args
pub mod ModuleRoot
pub mod Startup
pub mod Target
pub mod Marks
pub mod History
pub mod View
pub mod Locals
pub mod Printing
pub mod Shell
pub mod Index
pub mod Run
