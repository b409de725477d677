-- ===== src/Transfers/Writes.antt =====
-- The writing entry points (io_bbview_file_write.c), in the order of that file. `file_NAME` is
-- `mca_io_bbview_file_NAME`.
use bbview.Session.{Code, Op, Ompio, Transfer, err_other, err_request}
use bbview.Session.Run.{M, pure, with_lock, call, with_sharedfp, ◌>>=◌, ◌>>◌}
use bbview.Transfers.Frame.{record_count, split_begin, split_end}

module _ {D I W : Type 0} (ompio : Ompio D I W) where
  unfoldable pub file_write : Transfer D → M D W Code
  file_write t = with_lock (call (ompio.perform Op.file_write t))

  unfoldable pub file_write_at : Transfer D → M D W Code
  file_write_at t = with_lock (call (ompio.perform Op.file_write_at t))

  unfoldable pub file_iwrite : Transfer D → M D W Code
  file_iwrite t = with_lock (call (ompio.perform Op.file_iwrite t))

  unfoldable pub file_iwrite_at : Transfer D → M D W Code
  file_iwrite_at t = with_lock (call (ompio.perform Op.file_iwrite_at t))

  unfoldable pub file_write_all : Transfer D → M D W Code
  file_write_all t = do
    ret ← with_lock (call (ompio.perform Op.file_write_all t))
    record_count ompio t
    pure ret

  unfoldable pub file_write_at_all : Transfer D → M D W Code
  file_write_at_all t = with_lock (call (ompio.perform Op.file_write_at_all t))

  unfoldable pub file_iwrite_all : Transfer D → M D W Code
  file_iwrite_all t = with_lock (call (ompio.perform Op.file_iwrite_all t))

  unfoldable pub file_iwrite_at_all : Transfer D → M D W Code
  file_iwrite_at_all t = with_lock (call (ompio.perform Op.file_iwrite_at_all t))

  unfoldable pub file_write_shared : Transfer D → M D W Code
  file_write_shared t = with_sharedfp (with_lock (call (ompio.perform Op.sharedfp_write t)))

  unfoldable pub file_iwrite_shared : Transfer D → M D W Code
  file_iwrite_shared t = with_sharedfp (with_lock (call (ompio.perform Op.sharedfp_iwrite t)))

  unfoldable pub file_write_ordered : Transfer D → M D W Code
  file_write_ordered t =
      with_sharedfp (with_lock (call (ompio.perform Op.sharedfp_write_ordered t)))

  unfoldable pub file_write_ordered_begin : Transfer D → M D W Code
  file_write_ordered_begin t =
      with_sharedfp (with_lock (call (ompio.perform Op.sharedfp_write_ordered_begin t)))

  unfoldable pub file_write_ordered_end : Transfer D → M D W Code
  file_write_ordered_end t =
      with_sharedfp (with_lock (call (ompio.perform Op.sharedfp_write_ordered_end t)))

  unfoldable pub file_write_all_begin : Transfer D → M D W Code
  file_write_all_begin t = split_begin err_other (file_iwrite_all t)

  unfoldable pub file_write_all_end : Transfer D → M D W Code
  file_write_all_end t = split_end ompio t

  unfoldable pub file_write_at_all_begin : Transfer D → M D W Code
  file_write_at_all_begin t =
      split_begin err_request (with_lock (call (ompio.perform Op.file_iwrite_at_all t)))

  unfoldable pub file_write_at_all_end : Transfer D → M D W Code
  file_write_at_all_end t = split_end ompio t
