-- ===== src/Util.antt =====
-- src/util.c: the conversions between numbers and text (digits10, ll2string, string2ll).
pub mod Decimal
