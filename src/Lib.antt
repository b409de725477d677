-- ===== src/Lib.antt =====
-- bbview, an I/O component of Open MPI that buffers a file view in a local file, and its daemon.
--
-- An application that sets a view other than the plain byte view is switched over to a file of its
-- own on a fast local disk; the writes go there one after the other. When the view changes, or the
-- file is closed, the component writes the view's description into extended attributes of the local
-- file and sends its name to the daemon, which copies the data through the view to the real file.
--
-- The parts, and the files that model them (`file_NAME` is `mca_io_bbview_file_NAME`):
--   io_bbview.h: Session (the open file with its private data and all that
--     the component calls), Session/Run (commands over an open file, with its lock)
--   io_bbview_file_read.c, io_bbview_file_write.c: Transfers/Reads, Transfers/Writes
--   io_bbview_module.c: Transfers (the slots of the transfers)
--   io_bbview_file_set_view.c: SetView (set_view and get_view), DirectIo (`enable_directio`)
--   io_bbview_file_flush.c: Flush; the name of the local file, in both files: LocalName
--   io_bbview_file_open.c: Manage, Manage/Seek, Manage/Preallocate, FileView/ByteOffset; sequences of
--     operations of the module's table: Manage/Reach
--   io_bbview.c: FileView (`ompi_io_bbview_generate_current_file_view`), OffsetInfo (its record of
--     offsets), SortOfflen (`ompi_io_bbview_sort_offlen`), Component (the lookup of parameters)
--   io_bbview_component.c: Component (parameters, queries, deletion)
--   bbviewd.c: Daemon (the queue, the workers and the listener), Daemon/Queue (the queue's nodes in
--     memory), Daemon/Sockets (`create_socket` and the start of `main`), Daemon/Sent (the names of
--     local files), Daemon/Job (what a worker does with a path), Daemon/Copy (`execute`),
--     Daemon/Wakeup (the condition variable `q_cv`), Daemon/Ending (the joins at the end of `main`),
--     Daemon/Listening (`listener_loop` as one thread, with the connections of its clients)
--   from the flush to the destination: Delivery (what both sides rely on of the calls)
-- Base holds what they share (Base/Handles the tables of what is open), and Tests concrete inputs.
--
-- A handler is a function of the open file that ends with its result and the changed file, or is
-- stuck where the C takes its lock twice, frees it twice or follows a NULL pointer. ompio, the
-- datatype engine, the communicator and the operating system are records of functions, on which
-- nothing is assumed but what a theorem says. Sizes and offsets are numbers below 2^64 with
-- their wrap-around written out; 32-bit ints are bit patterns where their range matters, and the
-- indices of the heap sort have no bound, where the source's int holds up to 2^30 entries. Text is a
-- list of bytes.
--
-- Fuel: the loop of generate_current_file_view has one round more than the bytes asked for, and each
-- round writes at least one byte of a view without empty blocks; the loop over the chunks of a
-- description has one round more than its bytes; the search of get_byte_offset has one more than
-- the blocks; the copying loop has more rounds than there are bytes to read; the listener's loops
-- have more than there are connections, interruptions and looks at the workers to come;
-- `enable_directio` takes the depth of the datatype, an argument of the environment; an entry that sinks in the heap makes
-- at most as many rounds as the heap has entries; the steps of get_eof_offset are fewer than the
-- offset plus two, for elements that are not empty.
--
-- The daemon is a set of steps, each of them what a thread does under the mutex or between two
-- accesses to shared data, in the order that a schedule gives. A thread that has to wait makes none.
-- A message comes with memory for its job or, as one of its own kind, without; `enqueue` is what the
-- first does, `refuse` the second. A job is one step there; Daemon/Job and Daemon/Copy say what it does. Daemon/Wakeup adds who of those
-- that wait has been woken, and leaves out the wake-ups without a cause that POSIX allows.
--
-- Not modelled: get_amode and get_type_extent, which pass a field on; open_component, close_component
-- and init_query; the collective calls behind the record of offsets, which are parameters, and the
-- committing of its datatype; the daemon's signals; the release of memory, but for the
-- queue's nodes; and messages to the user.
pub mod Base
pub mod Component
pub mod Daemon
pub mod Delivery
pub mod DirectIo
pub mod FileView
pub mod Flush
pub mod LocalName
pub mod Manage
pub mod OffsetInfo
pub mod Session
pub mod SetView
pub mod SortOfflen
pub mod Tests
pub mod Transfers
