-- ===== src/Execmac.antt =====
-- src/execmac.c. The words of `-c` are in Execmac/Capabilities, `main` is in Execmac/Main.
pub mod Capabilities
pub mod Main
