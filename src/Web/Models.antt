-- ===== src/Web/Models.antt =====
-- web/src/pages/ModelsPage.vue: the page of the channels.
pub mod State
pub mod Groups
pub mod Members
pub mod Tests
pub mod Discovery
pub mod Markup
pub mod Requests
pub mod Locks
pub mod Columns
pub mod Buttons
pub mod Editing
