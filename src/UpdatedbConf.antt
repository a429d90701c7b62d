-- ===== src/UpdatedbConf.antt =====
-- The configuration file of updatedb: the lexer, the variables and their values, and the parser of
-- src/conf.cpp. The C library's character classes and number readers are parameters.
pub mod Lexer
pub mod Values
pub mod Parser
pub mod Names
pub mod Lexing
pub mod Lines
pub mod Words
pub mod Steps
pub mod Ending
pub mod Parsing
mod Examples
