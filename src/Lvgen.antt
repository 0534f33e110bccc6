-- ===== src/Lvgen.antt =====
-- internal/lvgen: the generator of the bindings.
pub mod Lexer
pub mod Names
pub mod Table
pub mod Numbers
pub mod Generator
pub mod Grammar
pub mod Generate
