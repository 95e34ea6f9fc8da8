-- ===== src/Examples.antt =====
-- The theorems at concrete inputs.
mod Sessions
mod Rights
mod Shell
mod Focus
mod Histories
mod Tails
mod Administration
mod Resources
mod Entry
mod Surroundings
mod Monitoring
mod Whole
mod Reading
