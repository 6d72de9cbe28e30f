-- ===== src/Drivers.antt =====
-- drivers/: the scheduler and the prompt parser of the ELM327 driver.
pub mod Scheduler
pub mod Prompt
