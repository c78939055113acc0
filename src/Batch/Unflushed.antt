-- ===== src/Batch/Unflushed.antt =====
-- What a flush that fails at its manifest leaves for a retry of the write.
