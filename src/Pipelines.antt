-- ===== src/Pipelines.antt =====
-- packages/pipelines: the pipelines that extract a recipe's text from images, or take it as it is.
pub mod Images
pub mod Text
