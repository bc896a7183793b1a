-- ===== src/Topology.antt =====
-- The topology module: include/mammut/topology, src/topology.
pub mod ClockModulation
pub mod Coordinates
pub mod Tree
pub mod HotPlug
pub mod OnePerCore
pub mod IdleLevels
pub mod ProcFiles
pub mod Remote
pub mod Units
pub mod Messages
