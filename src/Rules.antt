-- ===== src/Rules.antt =====
-- app/rules: the keyword rules. `Types` has the rules, `Matcher` finds and replaces, `Engine` runs
-- a set of rules over a text.
pub mod Types
pub mod Matcher
pub mod Engine
