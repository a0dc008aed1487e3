-- ===== src/Kernel.antt =====
-- The shared kernel (services/src/engrammesh/shared/kernel), and what it uses of Python's str,
-- uuid and datetime.
pub mod Text
pub mod Calendar
pub mod Datetime
pub mod Ids
pub mod TimeKey
pub mod Cursor
pub mod Json
pub mod Freeze
pub mod Parse
pub mod Events
mod Examples
