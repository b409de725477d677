-- ===== src/Transfers/Locking.antt =====
-- What every transfer of io_bbview_file_read.c and io_bbview_file_write.c does, as one table: the
-- guards in their order, one call into ompio, and the bookkeeping around it.
use bbview.Base.{
  ◌*◌, ◌%◌, ◌≡◌, Bool, true, false, not, ◌&&◌, Option, none, some, arith, if◌then◌else◌,
}
use bbview.Base.Words.{word}
use bbview.Session.{
  Code, Op, Ompio, OmpioFile, Transfer, File, ompi_error, err_not_supported, err_other, err_request,
  is_active,
}
use bbview.Session.Run.{Run, ok}
use bbview.Transfers.{Slot, dispatch}
use bbview.Transfers.Frame.{record_count, split_begin, split_end}

-- Whether the slot reads, goes through the shared file pointer, and ends with the status of a
-- blocking collective call.
abbrev pub reads : Slot → Bool
reads Slot.read = true
reads Slot.read_at = true
reads Slot.iread = true
reads Slot.iread_at = true
reads Slot.read_all = true
reads Slot.iread_all = true
reads Slot.read_at_all = true
reads Slot.iread_at_all = true
reads Slot.read_shared = true
reads Slot.iread_shared = true
reads Slot.read_ordered = true
reads Slot.read_ordered_begin = true
reads Slot.read_ordered_end = true
reads Slot.read_all_begin = true
reads Slot.read_all_end = true
reads Slot.read_at_all_begin = true
reads Slot.read_at_all_end = true
reads _ = false

abbrev pub shared : Slot → Bool
shared Slot.read_shared = true
shared Slot.iread_shared = true
shared Slot.read_ordered = true
shared Slot.read_ordered_begin = true
shared Slot.read_ordered_end = true
shared Slot.write_shared = true
shared Slot.iwrite_shared = true
shared Slot.write_ordered = true
shared Slot.write_ordered_begin = true
shared Slot.write_ordered_end = true
shared _ = false

abbrev pub counts : Slot → Bool
counts Slot.read_all = true
counts Slot.write_all = true
counts _ = false

-- A split collective call begins or ends here; while one is under way a second is refused with the
-- code given.
pub data Split : Type 0 where
  whole : Split
  begins : Code → Split
  ends : Split

abbrev pub split : Slot → Split
split Slot.read_all_begin = Split.begins err_other
split Slot.read_all_end = Split.ends
split Slot.read_at_all_begin = Split.begins err_request
split Slot.read_at_all_end = Split.ends
split Slot.write_all_begin = Split.begins err_other
split Slot.write_all_end = Split.ends
split Slot.write_at_all_begin = Split.begins err_request
split Slot.write_at_all_end = Split.ends
split _ = Split.whole

-- The one call that a slot makes.
abbrev pub op_of : Slot → Op
op_of Slot.read = Op.file_read
op_of Slot.read_at = Op.file_read_at
op_of Slot.iread = Op.file_iread
op_of Slot.iread_at = Op.file_iread_at
op_of Slot.read_all = Op.file_read_all
op_of Slot.iread_all = Op.file_iread_all
op_of Slot.read_at_all = Op.file_read_at_all
op_of Slot.iread_at_all = Op.file_iread_at_all
op_of Slot.read_shared = Op.sharedfp_read
op_of Slot.iread_shared = Op.sharedfp_iread
op_of Slot.read_ordered = Op.sharedfp_read_ordered
op_of Slot.read_ordered_begin = Op.sharedfp_read_ordered_begin
op_of Slot.read_ordered_end = Op.sharedfp_read_ordered_end
op_of Slot.read_all_begin = Op.file_iread_all
op_of Slot.read_all_end = Op.request_wait
op_of Slot.read_at_all_begin = Op.file_iread_at_all
op_of Slot.read_at_all_end = Op.request_wait
op_of Slot.write = Op.file_write
op_of Slot.write_at = Op.file_write_at
op_of Slot.iwrite = Op.file_iwrite
op_of Slot.iwrite_at = Op.file_iwrite_at
op_of Slot.write_all = Op.file_write_all
op_of Slot.iwrite_all = Op.file_iwrite_all
op_of Slot.write_at_all = Op.file_write_at_all
op_of Slot.iwrite_at_all = Op.file_iwrite_at_all
op_of Slot.write_shared = Op.sharedfp_write
op_of Slot.iwrite_shared = Op.sharedfp_iwrite
op_of Slot.write_ordered = Op.sharedfp_write_ordered
op_of Slot.write_ordered_begin = Op.sharedfp_write_ordered_begin
op_of Slot.write_ordered_end = Op.sharedfp_write_ordered_end
op_of Slot.write_all_begin = Op.file_iwrite_all
op_of Slot.write_all_end = Op.request_wait
op_of Slot.write_at_all_begin = Op.file_iwrite_at_all
op_of Slot.write_at_all_end = Op.request_wait

abbrev pub refuses : Split → OmpioFile → Option Code
refuses (Split.begins busy) o = if o.split_coll_in_use then some busy else none
refuses Split.whole o = none
refuses Split.ends o = none

abbrev pub mark : Split → OmpioFile → OmpioFile
mark Split.whole o = o
mark (Split.begins busy) o = record o { split_coll_in_use = true }
mark Split.ends o = record o { split_coll_in_use = false }

module _ {D I W : Type 0} (ompio : Ompio D I W) where
  -- The call and its bookkeeping.
  abbrev pub transfer : Slot → Transfer D → File D W → Run (File D W) Code
  transfer s t f =
      let r = ompio.perform (op_of s) t f.ompio f.world in
      ok r.0 (record f {
        ompio = mark (split s) r.1;
        world = r.2;
        ucount =
            if counts s && t.status then t.count * ompio.type_size t.datatype % word else f.ucount;
      })

  abbrev pub unless_refused : Option Code → Slot → Transfer D → File D W → Run (File D W) Code
  unless_refused (some busy) s t f = ok busy f
  unless_refused none s t f = transfer s t f

  abbrev pub specified : Slot → Transfer D → File D W → Run (File D W) Code
  specified s t f =
      if reads s && is_active f.view.state
      then ok err_not_supported f
      else if shared s && not f.ompio.sharedfp
      then ok ompi_error f
      else unless_refused (refuses (split s) f.ompio) s t f

  -- Every transfer, called with the lock free, is the table's entry: a read of a buffered view is
  -- refused first, then a shared transfer without a shared file pointer, then a second split
  -- collective call, each with its code and nothing changed; any other call reaches ompio exactly
  -- once, never takes the lock twice, leaves it free, leaves the view's data alone, and sets the
  -- split flag and the status as the table says.
  pub dispatch-specified :
      (s : Slot) (t : Transfer D) (f : File D W)
      → f.locked ≡ false
      → dispatch ompio s t f ≡ specified s t f
  unfolding dispatch record_count split_begin split_end
  dispatch-specified Slot.read t f free = ground arith
  dispatch-specified _ t f free = ground arith
