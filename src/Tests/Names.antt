-- ===== src/Tests/Names.antt =====
-- The theorems on the names of local files at concrete names.
use bbview.Base.{ℕ, ◌≡◌, refl, [], ◌∷◌, ◌++◌, arith}
use bbview.LocalName.{Config, print_long, full_name, local_filename}
use bbview.LocalName.Decimal.{decimal}
use bbview.LocalName.Distinct.{local_filename_injective, local_filename_collides}

abbrev tmp_config : Config
tmp_config = record { tmp_dir = b'/' ∷ b't' ∷ []; path_max = 64 }

abbrev rank : ℕ
rank = 12

abbrev index : ℕ
index = 3

local_filename_injective_example : (rank ≡ rank) × (index ≡ index)
unfolding full_name print_long decimal
local_filename_injective_example =
    local_filename_injective tmp_config (b'/' ∷ b'a' ∷ []) rank index rank index (omega arith)
      (omega arith) (omega arith) (omega arith) refl

local_filename_collides_example :
    local_filename tmp_config (b'/' ∷ (b'a' ∷ []) ++ b'/' ∷ b'b' ∷ []) 0 1
    ≡ local_filename tmp_config (b'/' ∷ (b'a' ∷ []) ++ b'-' ∷ b'b' ∷ []) 0 1
local_filename_collides_example =
    local_filename_collides tmp_config b'/' (b'a' ∷ []) (b'b' ∷ []) 0 1
