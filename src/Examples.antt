-- ===== src/Examples.antt =====
-- The theorems at concrete inputs: tables of jobs, streams of a Matroska file, and an operating
-- system with two files.
mod Table
mod Tracks
mod Machine
mod Recycled
mod Documents
mod Queue
mod Requests
mod Database
mod Watching
mod Scanning
mod Locked
