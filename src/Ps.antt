-- ===== src/Ps.antt =====
-- src/ps.c. What the kernel reports is in Ps/Info, the text of a row in Ps/Format, the choice of
-- rows in Ps/Select, and `main` in Ps/Main.
pub mod Info
pub mod Format
pub mod Select
pub mod Main
