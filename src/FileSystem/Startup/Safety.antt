-- ===== src/FileSystem/Startup/Safety.antt =====
-- What `fs_init` writes to the disk: only partitions without a file system are formatted, and only
-- once.
