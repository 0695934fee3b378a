-- ===== src/Tests/Pickle.antt =====
-- Instances of the theorems about the numbers of a pickle.
use aliceml_seam.Base.{ℕ, zero, ◌≡◌, refl, arith, [], ◌∷◌, false}
use aliceml_seam.Pickle.{put_bytes, put_uint, InputStream, get_uint, end_of_buffer}
use aliceml_seam.Pickle.Numbers.{Holds, get_uint_cut}

-- 300 is written as 172 and 2.
abbrev buffer_of_300 : ℕ → ℕ
buffer_of_300 zero = 172
buffer_of_300 _ = 2

bytes_of_300 : Holds buffer_of_300 0 (172 ∷ 2 ∷ [])
unfolding Holds
bytes_of_300 = (refl, (refl, tt))

abbrev stream_to : ℕ → InputStream
stream_to tl = record { buffer = buffer_of_300; hd = 0; rd = 0; tl = tl; eob = false }

get_uint_cut_example : (get_uint (stream_to 1)).0 ≡ end_of_buffer
unfolding put_uint put_bytes
get_uint_cut_example =
    get_uint_cut buffer_of_300 0 0 1 300 (172 ∷ 2 ∷ []) (omega arith) refl bytes_of_300
      (omega arith) (omega arith)
