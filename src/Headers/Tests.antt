-- ===== src/Headers/Tests.antt =====
-- Runs and examples of riscure_trs.c.
use libtrs.Base.{refl, ℕ, replicate, drop, List, [], ◌∷◌, ◌++◌, ◌≡◌, none, true, inr, done, arith}
use libtrs.Headers.Table.{all_headers}
use libtrs.Files.Places.{at_end}
use libtrs.Headers.Turns.{Ends, count_headers-Ends}
use libtrs.Headers.Tags.{read_tag_and_len-write_tag_len_data}
use libtrs.Files.{File}
use libtrs.Headers.{strlen, data_len, count_headers, read_tag_and_len, write_tag_len_data}

-- A file that ends in the middle of its second header.
abbrev short_file : File
short_file = record { bytes = 0x42 ∷ 1 ∷ 7 ∷ 0x41 ∷ 4 ∷ []; pos = 0; limit = none; seekable = true }

count_headers-Ends_example : Ends (count_headers 6 0 0 short_file)
count_headers-Ends_example = count_headers-Ends 6 0 0 short_file (omega arith)

-- A description of 200 bytes, after three bytes of a file.
abbrev description : List ℕ
description = replicate 200 65

read_tag_and_len-write_tag_len_data_example :
    (f : File) × (write_tag_len_data 0x47 (description ++ (0 ∷ [])) (at_end true (1 ∷ 2 ∷ 3 ∷ []))
      ≡ done (f, inr tt))
    × (g : File) × (read_tag_and_len (record f { pos = 3 }) ≡ done (g, inr (0x47, 200)))
    × (drop g.pos g.bytes ≡ description)
unfolding data_len strlen all_headers
read_tag_and_len-write_tag_len_data_example =
    read_tag_and_len-write_tag_len_data 0x47 200 (1 ∷ 2 ∷ 3 ∷ []) (description ++ (0 ∷ [])) refl
      (omega arith) (omega arith)
