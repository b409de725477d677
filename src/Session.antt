-- ===== src/Session.antt =====
-- An open file as io_bbview sees it: `mca_common_bbview_data_t` (io_bbview.h), the fields of
-- ompio's `ompio_file_t` and of `ompi_file_t` that the component reads or writes, and what it calls
-- of ompio, of Open MPI and of the operating system.
-- `D` is the type of MPI datatypes, `I` that of info objects, and `W` all that the calls act on
-- besides the file handle: file contents, attributes, sockets, requests, the other processes.
pub mod Run
use bbview.Base.{ℕ, zero, suc, ◌≡◌, List, [], ◌∷◌, Bool, true, false, Option, none, some, arith}
use bbview.DirectIo.{Datatypes}
use bbview.FileView.{FileView}
use bbview.LocalName.{Config}

-- Return codes. `foreign` is any other code that a library call may return.
pub data Code : Type 0 where
  success : Code
  ompi_error : Code
  err_out_of_resource : Code
  err_not_supported : Code
  unsupported_datarep : Code
  err_disp : Code
  err_intern : Code
  err_other : Code
  err_access : Code
  err_io : Code
  err_request : Code
  foreign : ℕ → Code

abbrev pub is_success : Code → Bool
is_success success = true
is_success _ = false

-- `bbview_state_t`
pub data ViewState : Type 0 where
  default fallback active : ViewState

abbrev pub is_active : ViewState → Bool
is_active active = true
is_active default = false
is_active fallback = false

abbrev pub is_fallback : ViewState → Bool
is_fallback fallback = true
is_fallback default = false
is_fallback active = false

-- `ompio_file_t`. A negative descriptor is `none`; `sharedfp` says whether `f_sharedfp` is set; the
-- access mode is given by the two bits that are tested.
pub record OmpioFile : Type 0 where
  pub fd : Option ℕ
  pub filename : List ℕ
  pub sequential : Bool
  pub rdonly : Bool
  pub atomicity : Bool
  pub sharedfp : Bool
  pub split_coll_in_use : Bool
  pub fview : FileView

-- `mca_common_bbview_data_t`, less `ompio_fh`. What `calloc` leaves NULL is `none` or empty.
pub record ViewData (D : Type 0) : Type 0 where
  pub state : ViewState
  pub view_index : ℕ
  pub saved_disp : ℕ
  pub saved_dt_len : ℕ
  pub saved_dt_buf : List ℕ
  pub saved_et_len : ℕ
  pub saved_et_buf : List ℕ
  pub saved_datarep : Option (List ℕ)
  pub saved_etype : Option D
  pub saved_filetype : Option D

-- `ompi_file_t`: the private data, the lock, and the caller's `status->_ucount`.
pub record File (D W : Type 0) : Type 0 where
  pub view : ViewData D
  pub ompio : OmpioFile
  pub filename : List ℕ
  pub rank : ℕ
  pub is_open : Bool
  pub locked : Bool
  pub ucount : ℕ
  pub world : W

-- The arguments of a transfer; `status` is false for MPI_STATUS_IGNORE.
pub record Transfer (D : Type 0) : Type 0 where
  pub offset : ℕ
  pub buf : ℕ
  pub count : ℕ
  pub datatype : D
  pub status : Bool

-- A call of a library that is given the ompio file handle.
abbrev pub Call : Type 0 → Type 0 → Type 0
Call W A = OmpioFile → W → A × OmpioFile × W

-- The entry points of ompio's transfers, of its shared file pointer module, and the wait for a
-- request.
pub data Op : Type 0 where
  file_read file_read_at file_iread file_iread_at : Op
  file_read_all file_iread_all file_read_at_all file_iread_at_all : Op
  sharedfp_read sharedfp_iread sharedfp_read_ordered : Op
  sharedfp_read_ordered_begin sharedfp_read_ordered_end : Op
  file_write file_write_at file_iwrite file_iwrite_at : Op
  file_write_all file_iwrite_all file_write_at_all file_iwrite_at_all : Op
  sharedfp_write sharedfp_iwrite sharedfp_write_ordered : Op
  sharedfp_write_ordered_begin sharedfp_write_ordered_end : Op
  request_wait : Op

-- The extended attributes of a local file, and their values: text or packed descriptions, and the
-- eight bytes of an offset.
pub data Attr : Type 0 where
  dest_path disp etype : Attr
  datatype : ℕ → Attr

pub data AttrValue : Type 0 where
  text : List ℕ → AttrValue
  number : ℕ → AttrValue

-- ompio and the datatype engine.
pub record Ompio (D I W : Type 0) : Type 0 where
  pub perform : Op → Transfer D → Call W Code
  pub set_view : ℕ → D → D → List ℕ → Option I → Call W Code
  pub type_size : D → ℕ
  pub type_extent : D → Code × ℕ
  pub pack_description_length : D → ℕ
  pub get_pack_description : D → Code × List ℕ
  pub is_byte : D → Bool
  pub is_predefined : D → Bool
  pub duplicate : D → Option D
  pub direct_io : I → Option (List ℕ)
  pub cstring_to_bool : List ℕ → Option Bool

-- The operating system. A failed call is `none` or `false`.
pub record Posix (W : Type 0) : Type 0 where
  pub realpath : List ℕ → W → Option (List ℕ)
  pub setxattr : List ℕ → Attr → AttrValue → W → Bool × W
  pub open_local : List ℕ → Bool → W → Option ℕ × W
  pub reopen : List ℕ → W → Option ℕ × W
  pub close : Option ℕ → W → W
  pub socket : W → Option ℕ × W
  pub connect : ℕ → W → Bool × W
  pub write : ℕ → List ℕ → W → Option ℕ × W

-- All of these, with the configuration, a bound on the nesting of datatypes, and the constant
-- MPI_DISPLACEMENT_CURRENT.
pub record Env (D I W : Type 0) : Type 0 where
  pub ompio : Ompio D I W
  pub posix : Posix W
  pub mpi : Datatypes D
  pub config : Config
  pub depth : ℕ
  pub displacement_current : ℕ

-- A freshly queried file: `file_query` of io_bbview_component.c.
abbrev pub fresh_data : {D : Type 0} → ViewData D
fresh_data = record {
  state = default;
  view_index = 0;
  saved_disp = 0;
  saved_dt_len = 0;
  saved_dt_buf = [];
  saved_et_len = 0;
  saved_et_buf = [];
  saved_datarep = none;
  saved_etype = none;
  saved_filetype = none;
}
