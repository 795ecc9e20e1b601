-- ===== src/Tests.antt =====
-- Packets and tables for the tests, and each theorem at one of them.
mod Packets
mod Tables
mod Older
mod Witnesses
