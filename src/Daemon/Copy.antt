-- ===== src/Daemon/Copy.antt =====
-- The copy of a local file through its view (`execute` of bbviewd.c). The system calls, the datatype
-- engine and ompio are a parameter, with a failed call as `none` or `false`.
use bbview.Base.{
  ℕ, zero, suc, ◌+◌, ◌-◌, ◌*◌, ◌/◌, ◌%◌, List, [], ◌∷◌, ◌++◌, Bool, true, false, Option, none, some,
  ◌==◌, if◌then◌else◌, length, take,
}
use bbview.Flush.{max_xattr_value_size}
use bbview.Session.{Attr, AttrValue, text, number, disp, etype, datatype}

pub record Copier (D W : Type 0) : Type 0 where
  pub open_read : List ℕ → W → Option ℕ × W
  pub fgetxattr : ℕ → Attr → ℕ → W → Option AttrValue
  pub unpack : List ℕ → Option D
  pub type_size : D → Option ℕ
  pub malloc : ℕ → Bool
  pub file_open : List ℕ → W → Option ℕ × W
  pub set_view : ℕ → ℕ → D → D → W → Bool × W
  pub read : ℕ → ℕ → W → Option (List ℕ) × W
  pub file_write : ℕ → D → List ℕ → W → Bool × W
  pub file_close : ℕ → W → W
  pub close : ℕ → W → W

abbrev pub target_buffer_size : ℕ
target_buffer_size = 4 * 1024 * 1024

-- How a copy ends: with 0 or -1, in a division by an element type of size 0, or with the model's fuel
-- used up.
pub data Copied (W : Type 0) : Type 0 where
  finished : Bool → W → Copied W
  crashed : Copied W
  out_of_fuel : Copied W

-- The bytes of a value. An offset is not among those that are read as bytes.
abbrev pub as_text : Option AttrValue → Option (List ℕ)
as_text (some (text bs)) = some bs
as_text _ = none

abbrev pub as_number : Option AttrValue → Option ℕ
as_number (some (number n)) = some n
as_number _ = none

module _ {D W : Type 0} (io : Copier D W) where
  -- The chunks from `index` on, behind those in `dt_buf`; `left` is how many more fit.
  unfoldable pub read_chunks : ℕ → W → ℕ → ℕ → List ℕ → Option (List ℕ)
  read_chunks fd w zero index dt_buf = some dt_buf
  read_chunks fd w (suc left) index dt_buf =
      elim (as_text (io.fgetxattr fd (datatype index) max_xattr_value_size w)) [
        | none ↦ if index == 0 then none else some dt_buf
        | some part ↦ read_chunks fd w left (index + 1) (dt_buf ++ part)
      ]

  -- The whole element types at the start of what was read.
  abbrev pub whole_part : ℕ → List ℕ → List ℕ
  whole_part etype_size bs = take (length bs - length bs % etype_size) bs

  -- The loop over the local file. Every read but the last brings a byte, so its length and one more
  -- are enough rounds.
  unfoldable pub copy_loop : ℕ → ℕ → ℕ → D → ℕ → ℕ → W → Copied W
  copy_loop zero fd fh et etype_size buf_size w = out_of_fuel
  copy_loop (suc fuel) fd fh et etype_size buf_size w =
      let r = io.read fd buf_size w in
      let next = copy_loop fuel fd fh et etype_size buf_size in
      elim r.0 [
        | none ↦ finished false r.1
        | some [] ↦ finished true r.1
        | some (c ∷ cs) ↦
            let whole = whole_part etype_size (c ∷ cs) in
            if length whole == 0
            then next r.1
            else (let p = io.file_write fh et whole r.1 in
                if p.0 then next p.1 else finished false p.1)
      ]

  -- Behind the loop, on success and at `err_fclose`: the destination, then the local file is closed.
  abbrev pub closing : ℕ → ℕ → Copied W → Copied W
  closing fd fh (finished good w) = finished good (io.close fd (io.file_close fh w))
  closing fd fh crashed = crashed
  closing fd fh out_of_fuel = out_of_fuel

  abbrev pub fail : ℕ → W → Copied W
  fail fd w = finished false (io.close fd w)

  unfoldable pub buffer_size : ℕ → ℕ
  buffer_size etype_size = (target_buffer_size + etype_size - 1) / etype_size * etype_size

  -- From the opening of the destination on.
  unfoldable pub copy_to : ℕ → ℕ → List ℕ → ℕ → D → D → ℕ → W → Copied W
  copy_to fuel fd dst from et dt etype_size w =
      let opened = io.file_open dst w in
      elim opened.0 [
        | none ↦ fail fd opened.1
        | some fh ↦
            let viewed = io.set_view fh from et dt opened.1 in
            closing fd fh (
              if viewed.0
              then copy_loop fuel fd fh et etype_size (buffer_size etype_size) viewed.1
              else finished false viewed.1)
      ]

  -- The two types, once their descriptions have been read.
  unfoldable pub with_types : ℕ → ℕ → List ℕ → ℕ → List ℕ → List ℕ → W → Copied W
  with_types fuel fd dst from et_buf dt_buf w = elim (io.unpack et_buf) [
    | none ↦ fail fd w
    | some et ↦ elim (io.unpack dt_buf) [
      | none ↦ fail fd w
      | some dt ↦ elim (io.type_size et) [
        | none ↦ fail fd w
        | some zero ↦ crashed
        | some (suc n) ↦
            if io.malloc (buffer_size (suc n))
            then copy_to fuel fd dst from et dt (suc n) w
            else fail fd w
      ]
    ]
  ]

  unfoldable pub execute : ℕ → List ℕ → List ℕ → W → Copied W
  execute fuel src dst w =
      let opened = io.open_read src w in
      elim opened.0 [
        | none ↦ finished false opened.1
        | some fd ↦ elim (as_text (io.fgetxattr fd etype max_xattr_value_size opened.1)) [
          | none ↦ fail fd opened.1
          | some et_buf ↦
              elim (read_chunks fd opened.1 (target_buffer_size / max_xattr_value_size) 0 []) [
                | none ↦ fail fd opened.1
                | some dt_buf ↦ elim (as_number (io.fgetxattr fd disp 8 opened.1)) [
                  | none ↦ fail fd opened.1
                  | some from ↦ with_types fuel fd dst from et_buf dt_buf opened.1
                ]
              ]
        ]
      ]
