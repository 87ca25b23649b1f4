-- ===== src/Debugger.antt =====
-- The step debugger of src/debugger: breakpoints and their resolving, stepping, and the commands
-- of the client that end a break.
pub mod Types
pub mod Resolve
pub mod Hits
pub mod Location
pub mod Context
pub mod Statement
pub mod Functions
pub mod Program
pub mod Exclusive
pub mod Packets
pub mod Registry
pub mod Replies
pub mod Session
pub mod Dispatch
pub mod Features
pub mod Breakpoints
