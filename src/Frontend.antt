-- ===== src/Frontend.antt =====
-- frontend/src: the parts of the web client that keep state or make what is submitted.
pub mod SpendCategories
pub mod Lines
pub mod Ocr
pub mod Workspace
pub mod Flow
