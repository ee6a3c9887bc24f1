-- ===== src/Qpack/Parse.antt =====
-- h3/src/qpack/parse_error.rs: why a field section or an instruction cannot be read.
use h.Prelude.{ℕ}
use h.Prelude.Isize.{ℤ}
use h.Qpack.PrefixInt.{IntError}
use h.Qpack.PrefixString.{StringError}

pub data ParseError : Type 0 where
  integer : IntError → ParseError
  string : StringError → ParseError
  invalid_prefix : ℕ → ParseError
  invalid_base : ℤ → ParseError
