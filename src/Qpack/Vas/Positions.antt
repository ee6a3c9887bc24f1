-- ===== src/Qpack/Vas/Positions.antt =====
-- Addresses and positions in the table.
use h.Prelude.{
  ℕ, ◌+◌, ◌-◌, ◌≤◌, ◌<◌, ◌≡◌, arith, true, false, none, some, ok, ◌⊎◌, inl, inr, usize_max,
}
use native.Mathlib.Decide.{ℕ_discrete}
use h.Qpack.Vas.{VirtualAddressSpace, add, drop, relative, relative_base, post_base, index, evicted}

-- What is in the table is what was inserted and not dropped.
abbrev pub IsBalanced : VirtualAddressSpace → Type 0
IsBalanced v = v.inserted ≡ v.dropped + v.delta

-- On a balanced address space, add keeps the balance and gives the address that index has for the
-- new element, which is the last, and drop panics only on an empty space, keeps the balance, and
-- evicts the oldest address and not the next.
pub add-drop-IsBalanced :
    (v : VirtualAddressSpace)
    → IsBalanced v
    → IsBalanced (add v).1
      × (index (add v).1 v.delta ≡ ok (add v).0)
      × (((v.delta ≡ 0) × (drop v ≡ none))
          ⊎ ((w : VirtualAddressSpace) × (drop v ≡ some w)
              × IsBalanced w
              × (evicted w (v.dropped + 1) ≡ true)
              × (evicted w (v.dropped + 2) ≡ false)))
unfolding add drop index evicted
add-drop-IsBalanced v h = (
  omega arith,
  ground arith,
  elim (ℕ_discrete v.delta 0) [
    | yes p ↦ inl (p, ground arith)
    | no p ↦ inr (
      record { inserted = v.inserted; dropped = v.dropped + 1; delta = v.delta - 1 },
      ground arith,
      omega arith,
      ground arith,
      ground arith,
    )
  ],
)

-- On a balanced address space and a base not above the insertions, the position that relative,
-- relative_base or post_base finds is the one whose address index gives: the insertions less the
-- index, the base less the index, or the base and the index and one.
pub relative-index :
    (v : VirtualAddressSpace) (base i p : ℕ)
    → IsBalanced v
    → base ≤ v.inserted
    → (relative v i ≡ ok p → index v p ≡ ok (v.inserted - i))
      × (relative_base v base i ≡ ok p → index v p ≡ ok (base - i))
      × (post_base v base i ≡ ok p → index v p ≡ ok (base + i + 1))
unfolding relative relative_base post_base index
relative-index v base i p h b = (λ e. ground arith, λ e. ground arith, λ e. ground arith)

-- On a balanced address space with a usize of insertions, every position with an address is found again by relative from the
-- distance to the last insertion, by relative_base from a base at or above the address, and by
-- post_base from a base below it.
pub index-relative :
    (v : VirtualAddressSpace) (base p a : ℕ)
    → IsBalanced v
    → v.inserted ≤ usize_max
    → index v p ≡ ok a
    → (relative v (v.inserted - a) ≡ ok p)
      × (a ≤ base → relative_base v base (base - a) ≡ ok p)
      × (base < a → post_base v base (a - base - 1) ≡ ok p)
unfolding relative relative_base post_base index
index-relative v base p a h m e = (ground arith, λ k. ground arith, λ k. ground arith)
