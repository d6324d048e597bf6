-- ===== src/Cow/Tests.antt =====
-- kernel/trap.c: a store to the page that a small space shares.
