-- ===== src/Transfers/Frame.antt =====
-- What the transfers share. `record_count` is the code behind the lock of the blocking collective
-- calls, which sets the status to the count that was asked for; `split_begin` and `split_end` are
-- the frames of the split collective calls (io_bbview_file_read.c, io_bbview_file_write.c).
use bbview.Base.{◌*◌, ◌%◌, true, false, if◌then◌else◌}
use bbview.Base.Words.{word}
use bbview.Session.{Code, Op, Ompio, Transfer}
use bbview.Session.Run.{M, ok, pure, call, set_ompio, ◌>>=◌, ◌>>◌}

module _ {D I W : Type 0} (ompio : Ompio D I W) where
  unfoldable pub record_count : Transfer D → M D W (Unit {0})
  record_count t f =
      if t.status
      then ok tt (record f { ucount = t.count * ompio.type_size t.datatype % word })
      else ok tt f

  unfoldable pub split_end : Transfer D → M D W Code
  split_end t = do
    ret ← call (ompio.perform Op.request_wait t)
    set_ompio (λ o. record o { split_coll_in_use = false })
    pure ret

unfoldable pub split_begin : {D W : Type 0} → Code → M D W Code → M D W Code
split_begin busy start f =
    let run : M _ _ Code = do
      ret ← start
      set_ompio (λ o. record o { split_coll_in_use = true })
      pure ret
    in if f.ompio.split_coll_in_use then ok busy f else run f
