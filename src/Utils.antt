-- ===== src/Utils.antt =====
-- include/mammut/utils.hpp and src/utils.cpp: helpers that every other part uses.
pub mod Msr
pub mod Vectors
pub mod Strings
pub mod Monitor
