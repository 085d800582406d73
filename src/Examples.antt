-- ===== src/Examples.antt =====
-- The theorems at concrete inputs, and runs of the definitions.
mod Pool
mod Versions
mod Ipsets
mod Servers
mod Build
mod Rules
mod Saves
mod Loops
mod Configs
mod Fakes
mod Settings
mod Parts
mod Whole
