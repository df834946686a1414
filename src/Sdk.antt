-- ===== src/Sdk.antt =====
-- sdk/test.js: the host on which the authors of plugins run their tests.
pub mod Objects
pub mod Paths
pub mod Templates
pub mod Inspection
pub mod Storage
pub mod Parts
pub mod Platform
pub mod Tests
