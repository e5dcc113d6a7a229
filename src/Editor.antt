-- ===== src/Editor.antt =====
-- src/interactive.rs: the prompts, the edits and the loop of the configuration editor, and its texts.
pub mod Prompts
pub mod Edits
pub mod Answers
pub mod Keeping
pub mod Adding
pub mod Changing
pub mod Session
pub mod Outcome
pub mod Dashboard
pub mod Alignment
