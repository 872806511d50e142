-- ===== src/Masp.antt =====
-- app/src/parser_impl_masp.c: the MASP transaction section and the MASP builder section.
pub mod Bundle
pub mod Builder
pub mod Descriptions
pub mod Safe
pub mod Walk
mod Tests
pub mod Zero
