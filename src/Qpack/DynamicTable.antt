-- ===== src/Qpack/DynamicTable.antt =====
-- h3/src/qpack/dynamic.rs: the dynamic table, its insertions and evictions and its decoder. A map is a
-- list of its entries.
pub mod Freeing
pub mod Capacity
pub mod Decoding
pub mod Tracked
use h.Prelude.{
  ℕ, zero, suc, ◌+◌, ◌-◌, Bool, true, false, List, [], ◌∷◌, ◌++◌, get_elem?, Option, none, some,
  Outcome, ok, err, panic, map_error,
}
use h.Prelude.{ltb, leb, ◌==◌, if◌then◌else◌}
use h.Qpack.Field.{HeaderField, mem_size, same_bytes}
use h.Qpack.Static.Lookup.{same_field, find_name}
use h.Qpack.Vas
use h.Qpack.Vas.{
  VirtualAddressSpace, VasError, relative_index, postbase_index, bad_index as vas_index,
}

abbrev pub settings_max_table_capacity_max : ℕ
settings_max_table_capacity_max = 1073741823

abbrev pub settings_max_blocked_streams_max : ℕ
settings_max_blocked_streams_max = 65535

pub data DynamicTableError : Type 0 where
  bad_relative_index bad_postbase_index bad_index : ℕ → DynamicTableError
  max_table_size_reached maximum_table_size_too_large max_blocked_streams_too_large :
      DynamicTableError
  unknown_stream_id : ℕ → DynamicTableError
  no_tracking_data invalid_tracking_count : DynamicTableError

-- `From<vas::Error>`
abbrev pub of_vas_error : VasError → DynamicTableError
of_vas_error (relative_index e) = bad_relative_index e
of_vas_error (postbase_index e) = bad_postbase_index e
of_vas_error (vas_index e) = bad_index e

module _ {K V : Type 0} (same : K → K → Bool) where
  abbrev pub entry_of : K → List (K × V) → Option V
  entry_of k [] = none
  entry_of k ((j, v) ∷ l) = if same k j then some v else entry_of k l

  -- The entry gets this value, where there is none a new one.
  abbrev pub assign : K → V → List (K × V) → List (K × V)
  assign k v [] = (k, v) ∷ []
  assign k v ((j, w) ∷ l) = if same k j then (j, v) ∷ l else (j, w) ∷ assign k v l

  abbrev pub remove : K → List (K × V) → List (K × V)
  remove k [] = []
  remove k ((j, w) ∷ l) = if same k j then l else (j, w) ∷ remove k l

pub record DynamicTable : Type 0 where
  pub fields : List HeaderField
  pub curr_size : ℕ
  pub max_size : ℕ
  pub vas : VirtualAddressSpace
  pub field_map : List (HeaderField × ℕ)
  pub name_map : List (List ℕ × ℕ)
  pub track_map : List (ℕ × ℕ)
  pub track_blocks : List (ℕ × List (List (ℕ × ℕ)))
  pub largest_known_received : ℕ
  pub blocked_max : ℕ
  pub blocked_count : ℕ
  pub blocked_streams : List (ℕ × ℕ)

-- `DynamicTable::new`
abbrev pub new : DynamicTable
new = record {
  fields = [];
  curr_size = 0;
  max_size = 0;
  vas = Vas.empty;
  field_map = [];
  name_map = [];
  track_map = [];
  track_blocks = [];
  largest_known_received = 0;
  blocked_max = 0;
  blocked_count = 0;
  blocked_streams = [];
}

unfoldable pub is_tracked : DynamicTable → ℕ → Bool
is_tracked t reference = elim (entry_of ◌==◌ reference t.track_map) [
  | some count ↦ ltb 0 count
  | none ↦ false
]

-- The loop of `can_free`: the number of fields that may go, and the size that is left. The address of
-- a field and the size are there unless the table is broken, which panics.
unfoldable pub evictable_loop : DynamicTable → ℕ → List HeaderField → ℕ → ℕ → ℕ → Option (ℕ × ℕ)
unfolding is_tracked
evictable_loop t lower_bound [] idx mem evictable = some (evictable, mem)
evictable_loop t lower_bound (to_evict ∷ fields) idx mem evictable =
    let rest =
      evictable_loop t lower_bound fields (idx + 1) (mem - mem_size to_evict) (evictable + 1) in
    if leb mem lower_bound then some (evictable, mem) else elim (Vas.index t.vas idx) [
      | ok reference ↦
          (if is_tracked t reference
            then some (evictable, mem)
            else if ltb mem (mem_size to_evict)
            then none
            else rest)
      | err e ↦ none
      | panic ↦ none
    ]

-- What follows the loop.
unfoldable pub enough : ℕ → ℕ → Option (ℕ × ℕ) → Outcome DynamicTableError (Option ℕ)
enough max_size required none = panic
enough max_size required (some (evictable, mem)) =
    if ltb max_size mem
    then panic
    else if leb required (max_size - mem)
    then ok (some evictable)
    else ok none

unfoldable pub can_free : ℕ → DynamicTable → Outcome DynamicTableError (Option ℕ)
unfolding evictable_loop enough
can_free required t =
    if ltb t.max_size required
    then err max_table_size_reached
    else if ltb t.max_size t.curr_size
    then panic
    else if leb required (t.max_size - t.curr_size)
    then ok (some 0)
    else enough t.max_size required
        (evictable_loop t (t.max_size - required) t.fields 0 t.curr_size 0)

-- An entry for an address that is gone is removed.
abbrev pub forget :
    {K : Type 0} → (K → K → Bool) → VirtualAddressSpace → K → List (K × ℕ) → List (K × ℕ)
forget same vas k l = elim (entry_of same k l) [
  | some address ↦ (if Vas.evicted vas address then remove same k l else l)
  | none ↦ l
]

-- A round of `evict`, for the field that is popped.
unfoldable pub evict_field : HeaderField → List HeaderField → DynamicTable → Option DynamicTable
evict_field field fields t =
    if ltb t.curr_size (mem_size field) then none else elim (Vas.drop t.vas) [
      | none ↦ none
      | some vas ↦ some (record t {
        fields = fields;
        curr_size = t.curr_size - mem_size field;
        vas = vas;
        name_map = forget same_bytes vas field.name t.name_map;
        field_map = forget same_field vas field t.field_map;
      })
    ]

unfoldable pub evict : ℕ → DynamicTable → Outcome DynamicTableError (Unit {0}) × DynamicTable
unfolding evict_field
evict zero t = (ok tt, t)
evict (suc n) t = elim t.fields [
  | [] ↦ (err max_table_size_reached, t)
  | field ∷ fields ↦ elim (evict_field field fields t) [ none ↦ (panic, t) | some u ↦ evict n u ]
]

-- What `insert` does once there is room.
unfoldable pub push_back :
    HeaderField
    → Outcome DynamicTableError (Unit {0}) × DynamicTable
    → Outcome DynamicTableError (Option ℕ) × DynamicTable
push_back field (ok u, t) = (
  ok (some (Vas.add t.vas).0),
  record t {
    curr_size = t.curr_size + mem_size field;
    fields = t.fields ++ (field ∷ []);
    vas = (Vas.add t.vas).1;
  },
)
push_back field (err e, t) = (err e, t)
push_back field (panic, t) = (panic, t)

unfoldable pub insert_freed :
    HeaderField
    → Outcome DynamicTableError (Option ℕ)
    → DynamicTable
    → Outcome DynamicTableError (Option ℕ) × DynamicTable
unfolding push_back evict
insert_freed field (ok none) t = (ok none, t)
insert_freed field (ok (some to_evict)) t = push_back field (evict to_evict t)
insert_freed field (err e) t = (err e, t)
insert_freed field panic t = (panic, t)

unfoldable pub insert :
    HeaderField → DynamicTable → Outcome DynamicTableError (Option ℕ) × DynamicTable
unfolding insert_freed can_free
insert field t =
    if t.max_size == 0 then (ok none, t) else insert_freed field (can_free (mem_size field) t) t

-- The maps that `put` changes.
unfoldable pub name_field :
    HeaderField
    → Outcome DynamicTableError (Option ℕ) × DynamicTable
    → Outcome DynamicTableError (Unit {0}) × DynamicTable
name_field field (ok (some index), t) = (
  ok tt,
  record t {
    field_map = assign same_field field index t.field_map;
    name_map = elim (find_name field.name) [
      | some i ↦ t.name_map
      | none ↦ assign same_bytes field.name index t.name_map
    ];
  },
)
name_field field (ok none, t) = (ok tt, t)
name_field field (err e, t) = (err e, t)
name_field field (panic, t) = (panic, t)

unfoldable pub put :
    HeaderField → DynamicTable → Outcome DynamicTableError (Unit {0}) × DynamicTable
unfolding name_field insert
put field t = name_field field (insert field t)

-- What `set_max_size` does with the answer of `can_free`.
unfoldable pub shrink :
    ℕ
    → Outcome DynamicTableError (Option ℕ)
    → DynamicTable
    → Outcome DynamicTableError (Unit {0}) × DynamicTable
unfolding evict
shrink size (ok (some to_evict)) t =
    let r = evict to_evict t in
    elim r.0 [
      | ok u ↦ (ok tt, record r.1 { max_size = size })
      | err e ↦ (err e, r.1)
      | panic ↦ (panic, r.1)
    ]
shrink size (ok none) t = (ok tt, record t { max_size = size })
shrink size (err e) t = (err e, t)
shrink size panic t = (panic, t)

unfoldable pub set_max_size : ℕ → DynamicTable → Outcome DynamicTableError (Unit {0}) × DynamicTable
unfolding shrink can_free
set_max_size size t =
    if ltb settings_max_table_capacity_max size
    then (err maximum_table_size_too_large, t)
    else if leb t.max_size size
    then (ok tt, record t { max_size = size })
    else shrink size (can_free (t.max_size - size) t) t

unfoldable pub set_max_blocked :
    ℕ → DynamicTable → Outcome DynamicTableError (Unit {0}) × DynamicTable
set_max_blocked max t =
    if leb settings_max_blocked_streams_max max
    then (err max_blocked_streams_too_large, t)
    else (ok tt, record t { blocked_max = max })

-- The field at a position, where there is one.
unfoldable pub field_at : DynamicTable → Outcome VasError ℕ → Outcome DynamicTableError HeaderField
field_at t (ok real_index) = elim (get_elem? t.fields real_index) [
  | some f ↦ ok f
  | none ↦ err (bad_index real_index)
]
field_at t (err e) = err (of_vas_error e)
field_at t panic = panic

-- `DynamicTable::get_relative`
unfoldable pub get_relative : DynamicTable → ℕ → Outcome DynamicTableError HeaderField
unfolding field_at
get_relative t index = field_at t (Vas.relative t.vas index)

-- `DynamicTableDecoder::get_relative`
unfoldable pub decoder_get_relative : DynamicTable → ℕ → ℕ → Outcome DynamicTableError HeaderField
unfolding field_at
decoder_get_relative t base index = field_at t (Vas.relative_base t.vas base index)

-- `DynamicTableDecoder::get_postbase`
unfoldable pub decoder_get_postbase : DynamicTable → ℕ → ℕ → Outcome DynamicTableError HeaderField
unfolding field_at
decoder_get_postbase t base index = field_at t (Vas.post_base t.vas base index)
