-- ===== src/Sds.antt =====
-- src/sds.c: the dynamic strings.
pub mod Buffer
mod Tests
pub mod SplitArgs
