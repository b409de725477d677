-- ===== src/Transfers/Reads.antt =====
-- The reading entry points (io_bbview_file_read.c), in the order of that file. `file_NAME` is
-- `mca_io_bbview_file_NAME`. Every one is refused while a view is buffered.
use bbview.Session.{Code, Op, Ompio, Transfer, err_other, err_request}
use bbview.Session.Run.{M, pure, with_lock, call, unless_active, with_sharedfp, ◌>>=◌, ◌>>◌}
use bbview.Transfers.Frame.{record_count, split_begin, split_end}

module _ {D I W : Type 0} (ompio : Ompio D I W) where
  unfoldable pub file_read : Transfer D → M D W Code
  file_read t = unless_active (with_lock (call (ompio.perform Op.file_read t)))

  unfoldable pub file_read_at : Transfer D → M D W Code
  file_read_at t = unless_active (with_lock (call (ompio.perform Op.file_read_at t)))

  unfoldable pub file_iread : Transfer D → M D W Code
  file_iread t = unless_active (with_lock (call (ompio.perform Op.file_iread t)))

  unfoldable pub file_iread_at : Transfer D → M D W Code
  file_iread_at t = unless_active (with_lock (call (ompio.perform Op.file_iread_at t)))

  unfoldable pub file_read_all : Transfer D → M D W Code
  file_read_all t =
      unless_active (do
        ret ← with_lock (call (ompio.perform Op.file_read_all t))
        record_count ompio t
        pure ret)

  unfoldable pub file_iread_all : Transfer D → M D W Code
  file_iread_all t = unless_active (with_lock (call (ompio.perform Op.file_iread_all t)))

  unfoldable pub file_read_at_all : Transfer D → M D W Code
  file_read_at_all t = unless_active (with_lock (call (ompio.perform Op.file_read_at_all t)))

  unfoldable pub file_iread_at_all : Transfer D → M D W Code
  file_iread_at_all t = unless_active (with_lock (call (ompio.perform Op.file_iread_at_all t)))

  unfoldable pub file_read_shared : Transfer D → M D W Code
  file_read_shared t =
      unless_active (with_sharedfp (with_lock (call (ompio.perform Op.sharedfp_read t))))

  unfoldable pub file_iread_shared : Transfer D → M D W Code
  file_iread_shared t =
      unless_active (with_sharedfp (with_lock (call (ompio.perform Op.sharedfp_iread t))))

  unfoldable pub file_read_ordered : Transfer D → M D W Code
  file_read_ordered t =
      unless_active (with_sharedfp (with_lock (call (ompio.perform Op.sharedfp_read_ordered t))))

  unfoldable pub file_read_ordered_begin : Transfer D → M D W Code
  file_read_ordered_begin t =
      unless_active
        (with_sharedfp (with_lock (call (ompio.perform Op.sharedfp_read_ordered_begin t))))

  unfoldable pub file_read_ordered_end : Transfer D → M D W Code
  file_read_ordered_end t =
      unless_active
        (with_sharedfp (with_lock (call (ompio.perform Op.sharedfp_read_ordered_end t))))

  unfoldable pub file_read_all_begin : Transfer D → M D W Code
  file_read_all_begin t = unless_active (split_begin err_other (file_iread_all t))

  unfoldable pub file_read_all_end : Transfer D → M D W Code
  file_read_all_end t = unless_active (split_end ompio t)

  unfoldable pub file_read_at_all_begin : Transfer D → M D W Code
  file_read_at_all_begin t =
      unless_active
        (split_begin err_request (with_lock (call (ompio.perform Op.file_iread_at_all t))))

  unfoldable pub file_read_at_all_end : Transfer D → M D W Code
  file_read_at_all_end t = unless_active (split_end ompio t)
