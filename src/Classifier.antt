-- ===== src/Classifier.antt =====
-- Which failure class a gateway error is (src/classifier/).
pub mod Taxonomy
pub mod Mapper
pub mod Priority
mod Examples
