-- ===== src/Qpack/Vas.antt =====
-- h3/src/qpack/vas.rs: the addresses of a table that grows at one end and is emptied at the other.
pub mod Positions
use h.Prelude.{
  ℕ, ◌+◌, ◌-◌, ◌≤◌, ◌≡◌, Bool, ◌||◌, ◌&&◌, not, Option, none, some, Outcome, ok, err, panic, ltb,
  leb, ◌==◌, if◌then◌else◌, usize_max,
}

pub data VasError : Type 0 where
  relative_index postbase_index bad_index : ℕ → VasError

pub record VirtualAddressSpace : Type 0 where
  pub inserted : ℕ
  pub dropped : ℕ
  pub delta : ℕ

abbrev pub empty : VirtualAddressSpace
empty = record { inserted = 0; dropped = 0; delta = 0 }

-- `add`: the address of what was inserted, and the space behind it.
unfoldable pub add : VirtualAddressSpace → ℕ × VirtualAddressSpace
add v =
    (v.inserted + 1, record { inserted = v.inserted + 1; dropped = v.dropped; delta = v.delta + 1 })

-- `drop`: taking one from an empty space underflows.
unfoldable pub drop : VirtualAddressSpace → Option VirtualAddressSpace
drop v =
    if v.delta == 0
    then none
    else some (record { inserted = v.inserted; dropped = v.dropped + 1; delta = v.delta - 1 })

unfoldable pub relative : VirtualAddressSpace → ℕ → Outcome VasError ℕ
relative v i =
    if ltb v.inserted i || (v.delta == 0 || leb (v.inserted - i) v.dropped)
    then err (relative_index i)
    else ok (v.inserted - v.dropped - i - 1)

unfoldable pub evicted : VirtualAddressSpace → ℕ → Bool
evicted v i = not (i == 0) && leb i v.dropped

unfoldable pub relative_base : VirtualAddressSpace → ℕ → ℕ → Outcome VasError ℕ
relative_base v base i =
    if v.delta == 0 || (ltb base i || leb (base - i) v.dropped)
    then err (relative_index i)
    else ok (base - v.dropped - i - 1)

unfoldable pub post_base : VirtualAddressSpace → ℕ → ℕ → Outcome VasError ℕ
post_base v base i =
    if v.delta == 0
    then err (postbase_index i)
    else if ltb usize_max (base + i)
    then panic
    else if leb v.inserted (base + i) || ltb (base + i) v.dropped
    then err (postbase_index i)
    else ok (base + i - v.dropped)

unfoldable pub index : VirtualAddressSpace → ℕ → Outcome VasError ℕ
index v i = if leb v.delta i then err (bad_index i) else ok (i + v.dropped + 1)

unfoldable pub largest_ref : VirtualAddressSpace → ℕ
largest_ref v = v.inserted - v.dropped

unfoldable pub total_inserted : VirtualAddressSpace → ℕ
total_inserted v = v.inserted
