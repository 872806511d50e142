-- ===== src/Reader/Safe.antt =====
-- Memory safety of readers over the context of app/src/parser_impl_common.c.
mod Predicates
mod Primitives
mod Rules
pub use Predicates.*
pub use Primitives.*
pub use Rules.*
