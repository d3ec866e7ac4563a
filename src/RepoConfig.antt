-- ===== src/RepoConfig.antt =====
-- scripts/repo-config.mjs: the settings of the repository on the server against the committed
-- definitions. A message of the report is a constructor with the values that the text shows. What
-- `gh` and `git` answer is the input.
pub mod Workflows
pub mod Canonical
pub mod Mirror
pub mod Security
pub mod Check
