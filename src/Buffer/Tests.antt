-- ===== src/Buffer/Tests.antt =====
-- The theorems on buffers at concrete inputs.
use par_diff_vpn.Prelude.{ℕ, ◌≡◌, refl, some, List, [], ◌∷◌, arith}
use par_diff_vpn.Buffer.{Buffer, read_u32, contents}
use par_diff_vpn.Buffer.Contents.{IsOver, IsValid}
use par_diff_vpn.Buffer.Numbers.{read_u32-append}

abbrev bytes_of : List ℕ
bytes_of = 0 ∷ 0 ∷ 0 ∷ 0 ∷ 1 ∷ 2 ∷ 9 ∷ 0 ∷ []

abbrev sample : Buffer
sample = record { capacity = 8; offset = 2; len = 5; bytes = some bytes_of }

sample-IsOver : IsOver sample bytes_of
sample-IsOver = record { memory = refl; size = refl; within = omega arith }

read_u32-append_example :
    (b' : Buffer) × (read_u32 sample ≡ some (258, b')) × IsValid b' × (contents b' ≡ 9 ∷ [])
unfolding contents
read_u32-append_example =
    read_u32-append 258 (9 ∷ []) sample (omega arith) (bytes_of, sample-IsOver) refl
