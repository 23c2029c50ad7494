-- ===== src/FileKey/Tests.antt =====
-- The key of a file node: the theorem at a concrete input.
