-- ===== src/Transfers.antt =====
-- The transfers of the module table (io_bbview_module.c): a slot for each, and the function that
-- serves it.
pub mod Frame
pub mod Locking
pub mod Reads
pub mod Writes
use bbview.Session.{Code, Ompio, Transfer}
use bbview.Session.Run.{M}
use bbview.Transfers.Reads
use bbview.Transfers.Writes

pub data Slot : Type 0 where
  read read_at iread iread_at read_all iread_all read_at_all iread_at_all read_shared : Slot
  iread_shared read_ordered read_ordered_begin read_ordered_end read_all_begin read_all_end : Slot
  read_at_all_begin read_at_all_end : Slot
  write write_at iwrite iwrite_at write_all iwrite_all write_at_all iwrite_at_all : Slot
  write_shared iwrite_shared write_ordered write_ordered_begin write_ordered_end : Slot
  write_all_begin write_all_end write_at_all_begin write_at_all_end : Slot

-- `mca_io_bbview_module`, less the slots that transfer nothing.
module _ {D I W : Type 0} (ompio : Ompio D I W) where
  pub dispatch : Slot → Transfer D → M D W Code
  unfolding Reads.file_read Reads.file_read_at Reads.file_iread Reads.file_iread_at
      Reads.file_read_all Reads.file_iread_all Reads.file_read_at_all Reads.file_iread_at_all
      Reads.file_read_shared Reads.file_iread_shared Reads.file_read_ordered
      Reads.file_read_ordered_begin Reads.file_read_ordered_end Reads.file_read_all_begin
      Reads.file_read_all_end Reads.file_read_at_all_begin Reads.file_read_at_all_end
      Writes.file_write Writes.file_write_at Writes.file_iwrite Writes.file_iwrite_at
      Writes.file_write_all Writes.file_write_at_all Writes.file_iwrite_all
      Writes.file_iwrite_at_all Writes.file_write_shared Writes.file_iwrite_shared
      Writes.file_write_ordered Writes.file_write_ordered_begin Writes.file_write_ordered_end
      Writes.file_write_all_begin Writes.file_write_all_end Writes.file_write_at_all_begin
      Writes.file_write_at_all_end
  dispatch read t = Reads.file_read ompio t
  dispatch read_at t = Reads.file_read_at ompio t
  dispatch iread t = Reads.file_iread ompio t
  dispatch iread_at t = Reads.file_iread_at ompio t
  dispatch read_all t = Reads.file_read_all ompio t
  dispatch iread_all t = Reads.file_iread_all ompio t
  dispatch read_at_all t = Reads.file_read_at_all ompio t
  dispatch iread_at_all t = Reads.file_iread_at_all ompio t
  dispatch read_shared t = Reads.file_read_shared ompio t
  dispatch iread_shared t = Reads.file_iread_shared ompio t
  dispatch read_ordered t = Reads.file_read_ordered ompio t
  dispatch read_ordered_begin t = Reads.file_read_ordered_begin ompio t
  dispatch read_ordered_end t = Reads.file_read_ordered_end ompio t
  dispatch read_all_begin t = Reads.file_read_all_begin ompio t
  dispatch read_all_end t = Reads.file_read_all_end ompio t
  dispatch read_at_all_begin t = Reads.file_read_at_all_begin ompio t
  dispatch read_at_all_end t = Reads.file_read_at_all_end ompio t
  dispatch write t = Writes.file_write ompio t
  dispatch write_at t = Writes.file_write_at ompio t
  dispatch iwrite t = Writes.file_iwrite ompio t
  dispatch iwrite_at t = Writes.file_iwrite_at ompio t
  dispatch write_all t = Writes.file_write_all ompio t
  dispatch iwrite_all t = Writes.file_iwrite_all ompio t
  dispatch write_at_all t = Writes.file_write_at_all ompio t
  dispatch iwrite_at_all t = Writes.file_iwrite_at_all ompio t
  dispatch write_shared t = Writes.file_write_shared ompio t
  dispatch iwrite_shared t = Writes.file_iwrite_shared ompio t
  dispatch write_ordered t = Writes.file_write_ordered ompio t
  dispatch write_ordered_begin t = Writes.file_write_ordered_begin ompio t
  dispatch write_ordered_end t = Writes.file_write_ordered_end ompio t
  dispatch write_all_begin t = Writes.file_write_all_begin ompio t
  dispatch write_all_end t = Writes.file_write_all_end ompio t
  dispatch write_at_all_begin t = Writes.file_write_at_all_begin ompio t
  dispatch write_at_all_end t = Writes.file_write_at_all_end ompio t
