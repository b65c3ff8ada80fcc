-- ===== src/Blob/Tests.antt =====
-- The blob at concrete inputs.
use squirrel_gobject.Prelude.{◌<◌, ◌≡◌, refl, arith, if◌then◌else◌, ◌==◌, true, [], ◌∷◌}
use squirrel_gobject.Prelude.Int.{pos, negsuc}
use squirrel_gobject.Blob.{
  Blob, IsValid, contents, write, read, seek, seek_set, blob_set, blob_get, number,
  index_out_of_range,
}
use squirrel_gobject.Blob.Laws.{write_lem}
use squirrel_gobject.Blob.Access.{read_lem, read-write, blob_get-blob_set}

-- four bytes in a buffer of five, with the position behind the third
abbrev four : Blob
four = record { size = 4; allocated = 5; ptr = 3; buf = 10 ∷ 20 ∷ 30 ∷ 40 ∷ 0 ∷ []; owns = true }

four-IsValid : IsValid four
four-IsValid = record { block = refl; fits = omega arith; position = omega arith; owned = refl }

write_lem_example :
    IsValid (write (1 ∷ 2 ∷ 3 ∷ []) four).0
    × (contents (write (1 ∷ 2 ∷ 3 ∷ []) four).0 ≡ 10 ∷ 20 ∷ 30 ∷ 1 ∷ 2 ∷ 3 ∷ [])
    × ((write (1 ∷ 2 ∷ 3 ∷ []) four).0.ptr ≡ 6)
    × ((write (1 ∷ 2 ∷ 3 ∷ []) four).1 ≡ 3)
write_lem_example = write_lem (1 ∷ 2 ∷ 3 ∷ []) four four-IsValid

read_lem_example :
    IsValid (read 9 four).0
    × (contents (read 9 four).0 ≡ 10 ∷ 20 ∷ 30 ∷ 40 ∷ [])
    × ((read 9 four).1 ≡ 40 ∷ [])
    × ((read 9 four).0.ptr ≡ 4)
unfolding read
read_lem_example = read_lem four four-IsValid 9

read-write_example :
    (read 3 (seek (pos 3) seek_set (write (1 ∷ 2 ∷ 3 ∷ []) four).0).0).1 ≡ 1 ∷ 2 ∷ 3 ∷ []
read-write_example = read-write (1 ∷ 2 ∷ 3 ∷ []) four four-IsValid

blob_get-blob_set_example :
    IsValid (blob_set (pos 1) (negsuc 1) four).0
    × ((blob_set (pos 1) (negsuc 1) four).1 ≡ number (negsuc 1))
    × (254 < 256)
    × (blob_get (pos 2) (blob_set (pos 1) (negsuc 1) four).0
        ≡ (if 1 == 2 then number (pos 254) else blob_get (pos 2) four))
unfolding blob_set
blob_get-blob_set_example = blob_get-blob_set four 1 2 (negsuc 1) four-IsValid (omega arith)

past_the_end : blob_get (pos 4) four ≡ index_out_of_range
unfolding blob_get
past_the_end = refl
