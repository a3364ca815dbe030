-- ===== src/Utils.antt =====
-- libpgvictoria/utils.c: the helpers that the other parts share.
mod Tests
pub mod Wire
pub mod Append
pub mod Text
pub mod Version
pub mod Command
