-- ===== src/Scan.antt =====
-- internal/scan: the scanner of the libraries. The files of a walk become rows of the database.
pub mod Names
pub mod Matched
pub mod Owned
pub mod Walk
pub mod One
pub mod LibraryScan
pub mod Grows
pub mod Kept
pub mod Loop
pub mod Pruned
