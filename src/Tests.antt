-- ===== src/Tests.antt =====
-- The theorems applied to concrete tables, requests and records.
mod Fixture
mod Reservations
mod Records
mod Endpoint
mod Sweeping
mod Enrolling
mod Events
mod Signing
mod Showing
mod Setup
mod Commands
