-- ===== src/Energy.antt =====
-- The energy module: include/mammut/energy, src/energy.
pub mod Msr
pub mod SysFs
pub mod Plug
pub mod Counters
pub mod PowerCaps
