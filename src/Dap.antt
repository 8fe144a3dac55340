-- ===== src/Dap.antt =====
-- internal/backend/dap: the client of Delve's debug adapter.
pub mod Wire
pub mod Location
pub mod Framing
pub mod Client
pub mod Breakpoints
pub mod Interface
