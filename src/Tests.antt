-- ===== src/Tests.antt =====
-- Runs of the definitions on small inputs, and the theorems at inputs that meet their hypotheses.
mod Causal
mod Urb
mod System
mod Links
mod Codecs
mod Startup
mod Network
mod Processes
mod Crash
