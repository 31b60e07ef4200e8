-- ===== src/Mount.antt =====
-- src/mount.c. The kinds of file system are in Mount/Kinds, the flags in Mount/Flags, the search for a
-- device by UUID in Mount/Devices, the table of file systems in Mount/Fstab, the lists of mounts in
-- Mount/Listing, and `main` in Mount/Main.
pub mod Kinds
pub mod Flags
pub mod System
pub mod Devices
pub mod Fstab
pub mod Listing
pub mod Main
