-- ===== src/Tests/Witnesses.antt =====
-- Each theorem at a concrete packet or table.
mod Bytes
mod Stores
mod Segments
mod Programs
mod Handshakes
mod Lists
mod Older
mod Start
