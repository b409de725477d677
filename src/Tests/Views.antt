-- ===== src/Tests/Views.antt =====
-- The theorems on file views (io_bbview.c, io_bbview_file_open.c) at a view of two blocks.
use bbview.Base.{ℕ, zero, suc, ◌*◌, ◌<◌, ◌≡◌, refl, [], ◌∷◌, ◌++◌, some, true, arith, get_elem?}
use bbview.FileView.{Block, FileView, Memory, generate_current_file_view}
use bbview.FileView.Bytes.{view_byte, prefix}
use bbview.FileView.Place.{IsTiling, IsValid}
use bbview.FileView.Generate.{
  Names, vector_bytes, view_after, generate_current_file_view_exact, generate_current_file_view-add,
}
use bbview.FileView.ByteOffset.{get_byte_offset, get_byte_offset_exact, located}

abbrev first : Block
first = record { iov_base = 0; iov_len = 4 }

abbrev second : Block
second = record { iov_base = 8; iov_len = 4 }

-- Four bytes, a gap, and four bytes, of every 16, from offset 100 on.
abbrev pub sample_view : FileView
sample_view = record {
  disp = 100;
  offset = 100;
  decoded_iov = first ∷ second ∷ [];
  iov_count = 2;
  view_extent = 16;
  view_size = 8;
  etype_size = 4;
  total_bytes = 0;
  position_in_file_view = 0;
  index_in_file_view = 0;
}

abbrev pub sample_memory : Memory
sample_memory = record { initial_size = 2; alloc = λ n. true }

blocks_positive : (i : ℕ) (b : Block) → get_elem? sample_view.decoded_iov i ≡ some b → 0 < b.iov_len
blocks_positive zero b h = ground arith
blocks_positive (suc zero) b h = ground arith
blocks_positive (suc (suc i)) b h = cc

sample_view-IsTiling : IsTiling sample_view.decoded_iov sample_view.iov_count
sample_view-IsTiling = record { count = refl; small = omega arith; positive = blocks_positive }

pub sample_view-IsValid : IsValid sample_view
unfolding prefix
sample_view-IsValid = record {
  tiling = sample_view-IsTiling;
  at = record { current = first; here = refl; before = refl; from = omega arith; to = omega arith };
}

generate_current_file_view_exact_example :
    Names sample_view 13 [] (generate_current_file_view sample_memory sample_view 13)
generate_current_file_view_exact_example =
    generate_current_file_view_exact sample_memory (λ n. refl) (omega arith) sample_view 13
      sample_view-IsValid (omega arith)

sample_calls :
    vector_bytes (generate_current_file_view sample_memory sample_view 5)
      ++ vector_bytes (
          generate_current_file_view sample_memory
            (view_after sample_view (generate_current_file_view sample_memory sample_view 5))
            6)
    ≡ vector_bytes (generate_current_file_view sample_memory sample_view 11)
sample_calls =
    generate_current_file_view-add sample_memory (λ n. refl) (omega arith) sample_view 5 6
      sample_view-IsValid (omega arith)

get_byte_offset_exact_example :
    get_byte_offset sample_view 3
    ≡ located
        (view_byte (record sample_view { offset = sample_view.disp }) (3 * sample_view.etype_size))
get_byte_offset_exact_example =
    get_byte_offset_exact sample_view 3 sample_view-IsTiling refl (omega arith) (omega arith)
      (omega arith) (omega arith)
