-- ===== src/Tests.antt =====
-- Runs of the code on concrete data, where the theorems' hypotheses hold.
mod Strace
mod Uuid
mod Mount
mod Fstab
mod Execmac
mod Ps
mod Logger
mod Ipcrm
mod Renice
mod Umount
mod Blkid
mod Login
mod Su
mod Powerd
mod Ipcs
mod Dmesg
mod Ifconfig
mod Lspci
mod Watch
mod Showmem
mod Dumper
mod Newgrp
