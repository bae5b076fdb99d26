-- ===== src/Worker.antt =====
-- src/worker and the formatter that it calls: how a job becomes a recipe.
pub mod Formatter
pub mod Scoring
pub mod Reporter
pub mod Monitor
pub mod ImportResult
pub mod JobWorld
pub mod Process
mod Examples
