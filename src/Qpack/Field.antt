-- ===== src/Qpack/Field.antt =====
-- h3/src/qpack/field.rs: a header field, whose name and value are bytes.
use h.Prelude.{ℕ, ◌+◌, Bool, true, false, ◌&&◌, ◌==◌, List, [], ◌∷◌, length}
use Prim.Native.String.{String, [] as no_chars, ◌∷◌ as ◌before◌}
use Prim.Native.Char.{code}

-- The bytes of an ASCII literal.
abbrev pub ascii : String → List ℕ
ascii no_chars = []
ascii (c before s) = code c ∷ ascii s

abbrev pub same_bytes : List ℕ → List ℕ → Bool
same_bytes [] [] = true
same_bytes (a ∷ xs) (b ∷ ys) = a == b && same_bytes xs ys
same_bytes _ _ = false

pub record HeaderField : Type 0 where
  pub name : List ℕ
  pub value : List ℕ

abbrev pub estimated_overhead_bytes : ℕ
estimated_overhead_bytes = 32

unfoldable pub mem_size : HeaderField → ℕ
mem_size f = length f.name + length f.value + estimated_overhead_bytes

unfoldable pub with_value : HeaderField → List ℕ → HeaderField
with_value f v = record { name = f.name; value = v }
