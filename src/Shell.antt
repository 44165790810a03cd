-- ===== src/Shell.antt =====
-- The shell of Lab/lab2/shlab/tsh.c (and its copy in the submission folder).
pub mod Jobs
pub mod Parse
pub mod Control
pub mod Input
mod Tests
