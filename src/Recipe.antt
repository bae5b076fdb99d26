-- ===== src/Recipe.antt =====
-- packages/domain/src/schemas: how values of unknown shape become recipes.
pub mod Numbers
pub mod Texts
pub mod Lists
pub mod Types
pub mod Encoding
pub mod Ingredients
pub mod Canonical
pub mod JsonLd
