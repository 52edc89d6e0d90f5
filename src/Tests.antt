-- ===== src/Tests.antt =====
-- Runs of the development on concrete input: what the theorems with
-- hypotheses give there, one file for each part of the program.
mod Parsing
mod Frames
mod Rings
mod Maps
mod Processing
mod Texts
mod Handovers
mod Services
mod Dashboard
mod Relays
mod Handlers
mod Interleavings
mod Recordings
