-- ===== src/Script.antt =====
-- Scripts: the lexer and the grammar of src/super-smack-lex.ll and src/super-smack-yacc.yy.
mod Tests
pub mod Token
pub mod Lexer
pub mod Grammar
pub mod Parser
pub mod Values
pub mod Defs
pub mod Run
