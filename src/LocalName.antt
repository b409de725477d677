-- ===== src/LocalName.antt =====
-- The name of the local file that buffers a view. io_bbview_file_set_view.c and
-- io_bbview_file_flush.c build it with the same lines:
--   snprintf(…, BBVIEW_TMP_DIR "/%s-%d-%ld", filename, rank, view_index)
-- and then turn every '/' behind the first character of the file's name into '-'.
-- Text is a list of bytes. BBVIEW_TMP_DIR (configure) and PATH_MAX (the system) are parameters.
pub mod Decimal
pub mod Distinct
use bbview.Base.{
  ℕ, zero, suc, ◌+◌, ◌-◌, List, [], ◌∷◌, ◌++◌, map, true, false, ltb, ◌==◌, if◌then◌else◌, length,
  take, ◌^◌,
}
use bbview.Base.Words.{word}
use bbview.LocalName.Decimal.{decimal}

pub record Config : Type 0 where
  pub tmp_dir : List ℕ
  pub path_max : ℕ

-- `%ld` of a `size_t`: the value as a signed number.
unfoldable pub print_long : ℕ → List ℕ
print_long n = if ltb n (2 ^ 63) then decimal n else b'-' ∷ decimal (word - n)

-- What `snprintf` is asked to print.
unfoldable pub full_name : Config → List ℕ → ℕ → ℕ → List ℕ
full_name c filename rank index =
    c.tmp_dir ++ (b'/' ∷ filename ++ (b'-' ∷ decimal rank ++ (b'-' ∷ print_long index)))

abbrev pub dash : ℕ → ℕ
dash x = if x == b'/' then b'-' else x

-- The loop that starts at index `k`.
unfoldable pub flatten_from : ℕ → List ℕ → List ℕ
flatten_from k [] = []
flatten_from zero (x ∷ xs) = dash x ∷ flatten_from zero xs
flatten_from (suc k) (x ∷ xs) = x ∷ flatten_from k xs

unfoldable pub local_filename : Config → List ℕ → ℕ → ℕ → List ℕ
local_filename c filename rank index =
    flatten_from (length c.tmp_dir + 2) (take (c.path_max - 1) (full_name c filename rank index))
