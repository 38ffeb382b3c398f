-- ===== src/Data.antt =====
-- krake/krake/data: the data that the components share.
pub mod Core
pub mod Key
pub mod Constraints
