-- ===== src/Directory.antt =====
-- src/kefu/routing/directory.py: people, teams, memberships and group channels resolve to users,
-- authorizations and delivery targets. Each method is a statement that only reads, but for
-- `bind_team_chat`. The log lines have no model.
pub mod Lookup
pub mod Access
pub mod Binding
