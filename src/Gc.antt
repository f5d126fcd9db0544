-- ===== src/Gc.antt =====
-- src/blockchecks/engine/gc.py: what old files and old results are removed. Children: Files is the plan
-- of deletions, Database the results in SQLite; Reasons, Safe, Newest and Pruned are what holds of them.
pub mod Files
pub mod Database
pub mod Reasons
pub mod Safe
pub mod Newest
pub mod Pruned
mod Tests
