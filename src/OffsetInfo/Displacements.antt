-- ===== src/OffsetInfo/Displacements.antt =====
-- Where the gather (io_bbview.c) puts the entries of each process.
