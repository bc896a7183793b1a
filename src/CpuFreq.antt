-- ===== src/CpuFreq.antt =====
-- The frequency scaling module: include/mammut/cpufreq, src/cpufreq.
pub mod Governors
pub mod Domain
pub mod Epyc
pub mod Rollback
pub mod Machine
pub mod Local
pub mod Remote
pub mod VoltageTable
