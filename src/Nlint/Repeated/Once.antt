-- ===== src/Nlint/Repeated/Once.antt =====
-- crates/oo/src/nlint.rs: the reports of the rule R6 for one container.
