-- ===== src/Examples/Table.antt =====
-- A dynamic table at concrete inputs.
use h.Prelude.{◌≡◌, refl, arith, [], ◌∷◌, ok, panic}
use h.Qpack.Field.{HeaderField, mem_size}
use h.Qpack.DynamicTable.{DynamicTable, new, insert, put, set_max_size, is_tracked}
use h.Qpack.DynamicTable.Freeing.{IsValid}
use h.Qpack.DynamicTable.Capacity.{Inserts, insert-Inserts}
use h.Qpack.DynamicTable.Decoding.{IsDecoding, Becomes, put-Becomes, set_max_size-Becomes}
use h.Qpack.DynamicTable.Tracked.{set_max_size-put}

-- Two fields of 34 bytes.
abbrev first_field : HeaderField
first_field = record { name = 97 ∷ []; value = 98 ∷ [] }

abbrev other_field : HeaderField
other_field = record { name = 99 ∷ []; value = 100 ∷ [] }

-- A table with room for one of them.
abbrev small_table : DynamicTable
small_table = record new {
  fields = first_field ∷ [];
  curr_size = 34;
  max_size = 60;
  vas = record { inserted = 1; dropped = 0; delta = 1 };
  field_map = (first_field, 1) ∷ [];
  name_map = (97 ∷ [], 1) ∷ [];
}

small_table-IsValid : IsValid small_table
unfolding mem_size
small_table-IsValid = record { size_is = refl; balanced = refl; addressed = refl }

small_table-IsDecoding : IsDecoding small_table
small_table-IsDecoding = record {
  valid = small_table-IsValid;
  within = omega arith;
  no_refs = refl;
}

put-Becomes_example :
    ((put other_field small_table).0 ≡ ok tt)
    × Becomes small_table (put other_field small_table).1 (other_field ∷ [])
unfolding mem_size
put-Becomes_example = put-Becomes other_field small_table small_table-IsDecoding (omega arith)

set_max_size-Becomes_example :
    ((set_max_size 33 small_table).0 ≡ ok tt)
    × Becomes small_table (set_max_size 33 small_table).1 []
    × ((set_max_size 33 small_table).1.max_size ≡ 33)
set_max_size-Becomes_example =
    set_max_size-Becomes 33 small_table small_table-IsDecoding (omega arith)

insert-Inserts_example : Inserts small_table other_field (insert other_field small_table)
insert-Inserts_example = insert-Inserts other_field small_table small_table-IsValid (omega arith)

abbrev tracked_table : DynamicTable
tracked_table = record small_table { track_map = (1, 1) ∷ [] }

-- A field of 33 bytes.
abbrev short_field : HeaderField
short_field = record { name = 97 ∷ []; value = [] }

set_max_size-put_example :
    (set_max_size 33 tracked_table ≡ (ok tt, record tracked_table { max_size = 33 }))
    × ((put short_field (set_max_size 33 tracked_table).1).0 ≡ panic)
unfolding mem_size is_tracked
set_max_size-put_example =
    set_max_size-put 33 tracked_table first_field short_field [] refl (omega arith) refl
      (omega arith) (omega arith) (omega arith) (omega arith) (omega arith)
