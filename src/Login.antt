-- ===== src/Login.antt =====
-- src/login.c. What it is given from outside is in Login/System, the program itself in Login/Main, and
-- Login/Shells and Login/Rounds show how one round of its loop ends.
-- Login/Laws and Login/Success are about all its rounds.
pub mod System
pub mod Main
pub mod Shells
pub mod Rounds
pub mod Laws
pub mod Conditions
pub mod Success
