-- ===== src/Work/Total.antt =====
-- gear/work.c: the program does not fault where the system can map memory.
