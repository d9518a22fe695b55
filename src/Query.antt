-- ===== src/Query.antt =====
-- src/query: the questions that the gateway answers.
pub mod Params
pub mod Links
pub mod Path
pub mod Reports
pub mod Boards
pub mod Redis
pub mod Gateway
