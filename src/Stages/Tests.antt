-- ===== src/Stages/Tests.antt =====
-- The first versions of the module at a concrete answer.
