-- ===== src/Cmd.antt =====
-- The command interpreter, components/core/src/cmd.c: the table of commands, the tokenizer and the
-- dispatcher.
pub mod Tokenizer
pub mod Registry
pub mod Dispatch
pub mod Tests
