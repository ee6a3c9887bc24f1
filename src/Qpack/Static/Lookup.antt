-- ===== src/Qpack/Static/Lookup.antt =====
-- `StaticTable::find` and `StaticTable::find_name` of h3/src/qpack/static_.rs.
use h.Prelude.{ℕ, List, [], ◌∷◌, Option, none, some, Bool, ◌&&◌, if◌then◌else◌}
use h.Qpack.Field.{HeaderField, ascii, same_bytes}
use h.Qpack.Static.{entry}

-- The arms of the `match` in `find`.
abbrev pub field_arms : List (HeaderField × ℕ)
field_arms =
    (entry ":authority" "", 0)
    ∷ (entry ":path" "/", 1)
    ∷ (entry "age" "0", 2)
    ∷ (entry "content-disposition" "", 3)
    ∷ (entry "content-length" "0", 4)
    ∷ (entry "cookie" "", 5)
    ∷ (entry "date" "", 6)
    ∷ (entry "etag" "", 7)
    ∷ (entry "if-modified-since" "", 8)
    ∷ (entry "if-none-match" "", 9)
    ∷ (entry "last-modified" "", 10)
    ∷ (entry "link" "", 11)
    ∷ (entry "location" "", 12)
    ∷ (entry "referer" "", 13)
    ∷ (entry "set-cookie" "", 14)
    ∷ (entry ":method" "CONNECT", 15)
    ∷ (entry ":method" "DELETE", 16)
    ∷ (entry ":method" "GET", 17)
    ∷ (entry ":method" "HEAD", 18)
    ∷ (entry ":method" "OPTIONS", 19)
    ∷ (entry ":method" "POST", 20)
    ∷ (entry ":method" "PUT", 21)
    ∷ (entry ":scheme" "http", 22)
    ∷ (entry ":scheme" "https", 23)
    ∷ (entry ":status" "103", 24)
    ∷ (entry ":status" "200", 25)
    ∷ (entry ":status" "304", 26)
    ∷ (entry ":status" "404", 27)
    ∷ (entry ":status" "503", 28)
    ∷ (entry "accept" "*/*", 29)
    ∷ (entry "accept" "application/dns-message", 30)
    ∷ (entry "accept-encoding" "gzip, deflate, br", 31)
    ∷ (entry "accept-ranges" "bytes", 32)
    ∷ (entry "access-control-allow-headers" "cache-control", 33)
    ∷ (entry "access-control-allow-headers" "content-type", 34)
    ∷ (entry "access-control-allow-origin" "*", 35)
    ∷ (entry "cache-control" "max-age=0", 36)
    ∷ (entry "cache-control" "max-age=2592000", 37)
    ∷ (entry "cache-control" "max-age=604800", 38)
    ∷ (entry "cache-control" "no-cache", 39)
    ∷ (entry "cache-control" "no-store", 40)
    ∷ (entry "cache-control" "public, max-age=31536000", 41)
    ∷ (entry "content-encoding" "br", 42)
    ∷ (entry "content-encoding" "gzip", 43)
    ∷ (entry "content-type" "application/dns-message", 44)
    ∷ (entry "content-type" "application/javascript", 45)
    ∷ (entry "content-type" "application/json", 46)
    ∷ (entry "content-type" "application/x-www-form-urlencoded", 47)
    ∷ (entry "content-type" "image/gif", 48)
    ∷ (entry "content-type" "image/jpeg", 49)
    ∷ (entry "content-type" "image/png", 50)
    ∷ (entry "content-type" "text/css", 51)
    ∷ (entry "content-type" "text/html; charset=utf-8", 52)
    ∷ (entry "content-type" "text/plain", 53)
    ∷ (entry "content-type" "text/plain;charset=utf-8", 54)
    ∷ (entry "range" "bytes=0-", 55)
    ∷ (entry "strict-transport-security" "max-age=31536000", 56)
    ∷ (entry "strict-transport-security" "max-age=31536000; includesubdomains", 57)
    ∷ (entry "strict-transport-security" "max-age=31536000; includesubdomains; preload", 58)
    ∷ (entry "vary" "accept-encoding", 59)
    ∷ (entry "vary" "origin", 60)
    ∷ (entry "x-content-type-options" "nosniff", 61)
    ∷ (entry "x-xss-protection" "1; mode=block", 62)
    ∷ (entry ":status" "100", 63)
    ∷ (entry ":status" "204", 64)
    ∷ (entry ":status" "206", 65)
    ∷ (entry ":status" "302", 66)
    ∷ (entry ":status" "400", 67)
    ∷ (entry ":status" "403", 68)
    ∷ (entry ":status" "421", 69)
    ∷ (entry ":status" "425", 70)
    ∷ (entry ":status" "500", 71)
    ∷ (entry "accept-language" "", 72)
    ∷ (entry "access-control-allow-credentials" "FALSE", 73)
    ∷ (entry "access-control-allow-credentials" "TRUE", 74)
    ∷ (entry "access-control-allow-headers" "*", 75)
    ∷ (entry "access-control-allow-methods" "get", 76)
    ∷ (entry "access-control-allow-methods" "get, post, options", 77)
    ∷ (entry "access-control-allow-methods" "options", 78)
    ∷ (entry "access-control-expose-headers" "content-length", 79)
    ∷ (entry "access-control-request-headers" "content-type", 80)
    ∷ (entry "access-control-request-method" "get", 81)
    ∷ (entry "access-control-request-method" "post", 82)
    ∷ (entry "alt-svc" "clear", 83)
    ∷ (entry "authorization" "", 84)
    ∷ (entry "content-security-policy" "script-src 'none'; object-src 'none'; base-uri 'none'", 85)
    ∷ (entry "early-data" "1", 86)
    ∷ (entry "expect-ct" "", 87)
    ∷ (entry "forwarded" "", 88)
    ∷ (entry "if-range" "", 89)
    ∷ (entry "origin" "", 90)
    ∷ (entry "purpose" "prefetch", 91)
    ∷ (entry "server" "", 92)
    ∷ (entry "timing-allow-origin" "*", 93)
    ∷ (entry "upgrade-insecure-requests" "1", 94)
    ∷ (entry "user-agent" "", 95)
    ∷ (entry "x-forwarded-for" "", 96)
    ∷ (entry "x-frame-options" "deny", 97)
    ∷ (entry "x-frame-options" "sameorigin", 98)
    ∷ []

abbrev pub same_field : HeaderField → HeaderField → Bool
same_field f g = same_bytes f.name g.name && same_bytes f.value g.value

unfoldable pub match_field : HeaderField → List (HeaderField × ℕ) → Option ℕ
match_field f [] = none
match_field f ((g, i) ∷ arms) = if same_field f g then some i else match_field f arms

-- `StaticTable::find`
unfoldable pub find : HeaderField → Option ℕ
unfolding match_field
find f = match_field f field_arms

-- The arms of the `match` in `find_name`.
abbrev pub name_arms : List (List ℕ × ℕ)
name_arms =
    (ascii ":authority", 0)
    ∷ (ascii ":path", 1)
    ∷ (ascii "age", 2)
    ∷ (ascii "content-disposition", 3)
    ∷ (ascii "content-length", 4)
    ∷ (ascii "cookie", 5)
    ∷ (ascii "date", 6)
    ∷ (ascii "etag", 7)
    ∷ (ascii "if-modified-since", 8)
    ∷ (ascii "if-none-match", 9)
    ∷ (ascii "last-modified", 10)
    ∷ (ascii "link", 11)
    ∷ (ascii "location", 12)
    ∷ (ascii "referer", 13)
    ∷ (ascii "set-cookie", 14)
    ∷ (ascii ":method", 15)
    ∷ (ascii ":scheme", 22)
    ∷ (ascii ":status", 24)
    ∷ (ascii "accept", 29)
    ∷ (ascii "accept-encoding", 31)
    ∷ (ascii "accept-ranges", 32)
    ∷ (ascii "access-control-allow-headers", 33)
    ∷ (ascii "access-control-allow-origin", 35)
    ∷ (ascii "cache-control", 36)
    ∷ (ascii "content-encoding", 42)
    ∷ (ascii "content-type", 44)
    ∷ (ascii "range", 55)
    ∷ (ascii "strict-transport-security", 56)
    ∷ (ascii "vary", 59)
    ∷ (ascii "x-content-type-options", 61)
    ∷ (ascii "x-xss-protection", 62)
    ∷ (ascii "accept-language", 72)
    ∷ (ascii "access-control-allow-credentials", 73)
    ∷ (ascii "access-control-allow-methods", 76)
    ∷ (ascii "access-control-expose-headers", 79)
    ∷ (ascii "access-control-request-headers", 80)
    ∷ (ascii "access-control-request-method", 81)
    ∷ (ascii "alt-svc", 83)
    ∷ (ascii "authorization", 84)
    ∷ (ascii "content-security-policy", 85)
    ∷ (ascii "early-data", 86)
    ∷ (ascii "expect-ct", 87)
    ∷ (ascii "forwarded", 88)
    ∷ (ascii "if-range", 89)
    ∷ (ascii "origin", 90)
    ∷ (ascii "purpose", 91)
    ∷ (ascii "server", 92)
    ∷ (ascii "timing-allow-origin", 93)
    ∷ (ascii "upgrade-insecure-requests", 94)
    ∷ (ascii "user-agent", 95)
    ∷ (ascii "x-forwarded-for", 96)
    ∷ (ascii "x-frame-options", 97)
    ∷ []

unfoldable pub match_name : List ℕ → List (List ℕ × ℕ) → Option ℕ
match_name name [] = none
match_name name ((n, i) ∷ arms) = if same_bytes name n then some i else match_name name arms

-- `StaticTable::find_name`
unfoldable pub find_name : List ℕ → Option ℕ
unfolding match_name
find_name name = match_name name name_arms
