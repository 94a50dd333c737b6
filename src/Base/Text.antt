-- ===== src/Base/Text.antt =====
-- The functions of Go's strings, strconv and fmt that the program calls, on native texts.
pub mod Split
pub mod Decimal
