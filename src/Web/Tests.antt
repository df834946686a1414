-- ===== src/Web/Tests.antt =====
-- Values on which the theorems on the console are tried.
pub mod Engine
pub mod Steps
pub mod Forms
pub mod Channels
pub mod Installation
pub mod Saving
pub mod Entry
