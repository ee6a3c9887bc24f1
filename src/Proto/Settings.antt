-- ===== src/Proto/Settings.antt =====
-- The SETTINGS frame's payload: `Settings`, `SettingId` and `SettingsError` of
-- h3/src/proto/frame.rs. A `SettingId` is the number that it holds.
pub mod Table
pub mod Parse
use h.Prelude.{ℕ, zero, suc, ◌+◌, Bool, true, false, ◌||◌, List, [], ◌∷◌, ◌++◌, Option, none, some}
use h.Prelude.{Outcome, ok, err, panic, Reader, ◌>>=◌, ◌>>◌, pure, fail, crash, map_err, ◌⊕◌}
use h.Prelude.{length, take, set, ltb, leb, ◌==◌, if◌then◌else◌}
use h.Proto.VarInt
use h.Proto.VarInt.{UnexpectedEnd}

-- `SettingId` constants.
abbrev pub no_setting : ℕ
no_setting = 0

abbrev pub qpack_max_table_capacity : ℕ
qpack_max_table_capacity = 0x1

abbrev pub qpack_max_blocked_streams : ℕ
qpack_max_blocked_streams = 0x7

abbrev pub max_header_list_size : ℕ
max_header_list_size = 0x6

abbrev pub enable_connect_protocol : ℕ
enable_connect_protocol = 0x8

abbrev pub h3_datagram : ℕ
h3_datagram = 0x33

abbrev pub enable_webtransport : ℕ
enable_webtransport = 0x2B603742

abbrev pub enable_datagram_chrome_specific : ℕ
enable_datagram_chrome_specific = 0xFFD277

abbrev pub webtransport_max_sessions : ℕ
webtransport_max_sessions = 0x2b603743

abbrev pub settings_len : ℕ
settings_len = 8

pub data SettingsError : Type 0 where
  exceeded malformed : SettingsError
  repeated invalid_setting_id : ℕ → SettingsError
  invalid_setting_value : ℕ → ℕ → SettingsError

unfoldable pub is_supported : ℕ → Bool
is_supported id =
    id == max_header_list_size
    || id == qpack_max_table_capacity
    || id == qpack_max_blocked_streams
    || id == enable_connect_protocol
    || id == enable_webtransport
    || id == webtransport_max_sessions
    || id == h3_datagram

unfoldable pub is_forbidden : ℕ → Bool
is_forbidden id = id == 0x00 || id == 0x02 || id == 0x03 || id == 0x04 || id == 0x05

-- The array of `settings_len` pairs and how many of them are in use.
pub record Settings : Type 0 where
  pub entries : List (ℕ × ℕ)
  pub len : ℕ

abbrev empty_entry : ℕ × ℕ
empty_entry = (no_setting, 0)

-- `Settings::default`
unfoldable pub empty : Settings
empty = record {
  entries =
      empty_entry ∷ empty_entry ∷ empty_entry ∷ empty_entry ∷ empty_entry ∷ empty_entry
      ∷ empty_entry ∷ empty_entry ∷ [];
  len = 0;
}

-- `entries[..len].iter().any(|(i, _)| *i == id)`
unfoldable pub has_id : ℕ → List (ℕ × ℕ) → Bool
has_id id [] = false
has_id id ((i, v) ∷ es) = i == id || has_id id es

abbrev pub used : Settings → List (ℕ × ℕ)
used s = take s.len s.entries

unfoldable pub insert : Settings → ℕ → ℕ → Outcome SettingsError Settings
unfolding has_id
insert s id value =
    if leb (length s.entries) s.len
    then err exceeded
    else if has_id id (used s)
    then err (repeated id)
    else ok (record s { entries = set s.entries s.len (id, value); len = s.len + 1 })

unfoldable pub find_entry : ℕ → List (ℕ × ℕ) → Option ℕ
find_entry id [] = none
find_entry id ((i, v) ∷ es) = if id == i then some v else find_entry id es

-- The scan goes over the whole array, the unused pairs included.
unfoldable pub get : Settings → ℕ → Option ℕ
unfolding find_entry
get s id = find_entry id s.entries

-- `id.encode(buf); buf.write_var(*val)` for each pair.
unfoldable pub encode_entries : List (ℕ × ℕ) → Option (List ℕ)
encode_entries [] = some []
encode_entries ((id, v) ∷ es) = VarInt.write_var id ⊕ VarInt.write_var v ⊕ encode_entries es

-- `FrameHeader::len`: each size is computed behind an unwrapped bounds check.
abbrev pub add_sizes : Option ℕ → Option ℕ → Option ℕ → Option ℕ
add_sizes (some a) (some b) (some c) = some (a + b + c)
add_sizes (some a) (some b) none = none
add_sizes (some a) none c = none
add_sizes none b c = none

unfoldable pub entries_len : List (ℕ × ℕ) → Option ℕ
entries_len [] = some 0
entries_len ((id, v) ∷ es) = add_sizes (VarInt.size id) (VarInt.size v) (entries_len es)

abbrev pub to_malformed : UnexpectedEnd → SettingsError
to_malformed _ = malformed

-- One round of the loop, on a pair that was read.
unfoldable pub accept : Settings → ℕ → ℕ → Outcome SettingsError Settings
unfolding is_forbidden is_supported insert
accept s id value =
    if is_forbidden id
    then err (invalid_setting_id id)
    else if is_supported id
    then insert s id value
    else ok s

-- The body of the loop: one pair from the buffer.
unfoldable pub decode_entry : Settings → Reader SettingsError Settings
unfolding accept
decode_entry s buf =
    if ltb (length buf) 2
    then (err malformed, buf)
    else (do
      id ← map_err to_malformed VarInt.decode
      value ← map_err to_malformed VarInt.decode
      λ rest. (accept s id value, rest))
        buf

-- `while buf.has_remaining()`, for `fuel` rounds; each takes two bytes at least.
unfoldable pub decode_loop : ℕ → Settings → Reader SettingsError Settings
decode_loop fuel s [] = (ok s, [])
decode_loop zero s (b ∷ r) = (panic, b ∷ r)
decode_loop (suc fuel) s (b ∷ r) = (decode_entry s >>= decode_loop fuel) (b ∷ r)

unfoldable pub decode : Reader SettingsError Settings
unfolding decode_loop
decode buf = decode_loop (length buf) empty buf
