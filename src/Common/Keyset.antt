-- ===== src/Common/Keyset.antt =====
-- Lists in pages: Python's `sorted` by a key, the rows behind a key, and a client that follows cursors.
mod Order
mod Walk
pub use Order.*
pub use Walk.*
