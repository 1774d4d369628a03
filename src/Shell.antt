-- ===== src/Shell.antt =====
-- lab5/zad1/main.c: a batch interpreter of pipelines, with its own hash table, vector and string.
pub mod Buffer
pub mod HashMap
pub mod Pipeline
pub mod Parser
pub mod Lines
pub mod Machine
mod Tests
