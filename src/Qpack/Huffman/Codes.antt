-- ===== src/Qpack/Huffman/Codes.antt =====
-- `HPACK_STRING` of h3/src/qpack/prefix_string/encode.rs: the code of each byte, its bits in parts of
-- eight with the rest in the last.
use h.Prelude.{ℕ, List, [], ◌∷◌, Option, none, some}
use h.Qpack.Huffman.Encoder.{EncodeValue, new, put_all}

abbrev code : ℕ → List ℕ → EncodeValue
code n parts = record { buffer = parts; bit_count = n }

abbrev pub hpack_string : List EncodeValue
hpack_string =
    code 13 (255 ∷ 24 ∷ [])
    ∷ code 23 (255 ∷ 255 ∷ 88 ∷ [])
    ∷ code 28 (255 ∷ 255 ∷ 254 ∷ 2 ∷ [])
    ∷ code 28 (255 ∷ 255 ∷ 254 ∷ 3 ∷ [])
    ∷ code 28 (255 ∷ 255 ∷ 254 ∷ 4 ∷ [])
    ∷ code 28 (255 ∷ 255 ∷ 254 ∷ 5 ∷ [])
    ∷ code 28 (255 ∷ 255 ∷ 254 ∷ 6 ∷ [])
    ∷ code 28 (255 ∷ 255 ∷ 254 ∷ 7 ∷ [])
    ∷ code 28 (255 ∷ 255 ∷ 254 ∷ 8 ∷ [])
    ∷ code 24 (255 ∷ 255 ∷ 234 ∷ [])
    ∷ code 30 (255 ∷ 255 ∷ 255 ∷ 60 ∷ [])
    ∷ code 28 (255 ∷ 255 ∷ 254 ∷ 9 ∷ [])
    ∷ code 28 (255 ∷ 255 ∷ 254 ∷ 10 ∷ [])
    ∷ code 30 (255 ∷ 255 ∷ 255 ∷ 61 ∷ [])
    ∷ code 28 (255 ∷ 255 ∷ 254 ∷ 11 ∷ [])
    ∷ code 28 (255 ∷ 255 ∷ 254 ∷ 12 ∷ [])
    ∷ code 28 (255 ∷ 255 ∷ 254 ∷ 13 ∷ [])
    ∷ code 28 (255 ∷ 255 ∷ 254 ∷ 14 ∷ [])
    ∷ code 28 (255 ∷ 255 ∷ 254 ∷ 15 ∷ [])
    ∷ code 28 (255 ∷ 255 ∷ 255 ∷ 0 ∷ [])
    ∷ code 28 (255 ∷ 255 ∷ 255 ∷ 1 ∷ [])
    ∷ code 28 (255 ∷ 255 ∷ 255 ∷ 2 ∷ [])
    ∷ code 30 (255 ∷ 255 ∷ 255 ∷ 62 ∷ [])
    ∷ code 28 (255 ∷ 255 ∷ 255 ∷ 3 ∷ [])
    ∷ code 28 (255 ∷ 255 ∷ 255 ∷ 4 ∷ [])
    ∷ code 28 (255 ∷ 255 ∷ 255 ∷ 5 ∷ [])
    ∷ code 28 (255 ∷ 255 ∷ 255 ∷ 6 ∷ [])
    ∷ code 28 (255 ∷ 255 ∷ 255 ∷ 7 ∷ [])
    ∷ code 28 (255 ∷ 255 ∷ 255 ∷ 8 ∷ [])
    ∷ code 28 (255 ∷ 255 ∷ 255 ∷ 9 ∷ [])
    ∷ code 28 (255 ∷ 255 ∷ 255 ∷ 10 ∷ [])
    ∷ code 28 (255 ∷ 255 ∷ 255 ∷ 11 ∷ [])
    ∷ code 6 (20 ∷ [])
    ∷ code 10 (254 ∷ 0 ∷ [])
    ∷ code 10 (254 ∷ 1 ∷ [])
    ∷ code 12 (255 ∷ 10 ∷ [])
    ∷ code 13 (255 ∷ 25 ∷ [])
    ∷ code 6 (21 ∷ [])
    ∷ code 8 (248 ∷ [])
    ∷ code 11 (255 ∷ 2 ∷ [])
    ∷ code 10 (254 ∷ 2 ∷ [])
    ∷ code 10 (254 ∷ 3 ∷ [])
    ∷ code 8 (249 ∷ [])
    ∷ code 11 (255 ∷ 3 ∷ [])
    ∷ code 8 (250 ∷ [])
    ∷ code 6 (22 ∷ [])
    ∷ code 6 (23 ∷ [])
    ∷ code 6 (24 ∷ [])
    ∷ code 5 (0 ∷ [])
    ∷ code 5 (1 ∷ [])
    ∷ code 5 (2 ∷ [])
    ∷ code 6 (25 ∷ [])
    ∷ code 6 (26 ∷ [])
    ∷ code 6 (27 ∷ [])
    ∷ code 6 (28 ∷ [])
    ∷ code 6 (29 ∷ [])
    ∷ code 6 (30 ∷ [])
    ∷ code 6 (31 ∷ [])
    ∷ code 7 (92 ∷ [])
    ∷ code 8 (251 ∷ [])
    ∷ code 15 (255 ∷ 124 ∷ [])
    ∷ code 6 (32 ∷ [])
    ∷ code 12 (255 ∷ 11 ∷ [])
    ∷ code 10 (255 ∷ 0 ∷ [])
    ∷ code 13 (255 ∷ 26 ∷ [])
    ∷ code 6 (33 ∷ [])
    ∷ code 7 (93 ∷ [])
    ∷ code 7 (94 ∷ [])
    ∷ code 7 (95 ∷ [])
    ∷ code 7 (96 ∷ [])
    ∷ code 7 (97 ∷ [])
    ∷ code 7 (98 ∷ [])
    ∷ code 7 (99 ∷ [])
    ∷ code 7 (100 ∷ [])
    ∷ code 7 (101 ∷ [])
    ∷ code 7 (102 ∷ [])
    ∷ code 7 (103 ∷ [])
    ∷ code 7 (104 ∷ [])
    ∷ code 7 (105 ∷ [])
    ∷ code 7 (106 ∷ [])
    ∷ code 7 (107 ∷ [])
    ∷ code 7 (108 ∷ [])
    ∷ code 7 (109 ∷ [])
    ∷ code 7 (110 ∷ [])
    ∷ code 7 (111 ∷ [])
    ∷ code 7 (112 ∷ [])
    ∷ code 7 (113 ∷ [])
    ∷ code 7 (114 ∷ [])
    ∷ code 8 (252 ∷ [])
    ∷ code 7 (115 ∷ [])
    ∷ code 8 (253 ∷ [])
    ∷ code 13 (255 ∷ 27 ∷ [])
    ∷ code 19 (255 ∷ 254 ∷ 0 ∷ [])
    ∷ code 13 (255 ∷ 28 ∷ [])
    ∷ code 14 (255 ∷ 60 ∷ [])
    ∷ code 6 (34 ∷ [])
    ∷ code 15 (255 ∷ 125 ∷ [])
    ∷ code 5 (3 ∷ [])
    ∷ code 6 (35 ∷ [])
    ∷ code 5 (4 ∷ [])
    ∷ code 6 (36 ∷ [])
    ∷ code 5 (5 ∷ [])
    ∷ code 6 (37 ∷ [])
    ∷ code 6 (38 ∷ [])
    ∷ code 6 (39 ∷ [])
    ∷ code 5 (6 ∷ [])
    ∷ code 7 (116 ∷ [])
    ∷ code 7 (117 ∷ [])
    ∷ code 6 (40 ∷ [])
    ∷ code 6 (41 ∷ [])
    ∷ code 6 (42 ∷ [])
    ∷ code 5 (7 ∷ [])
    ∷ code 6 (43 ∷ [])
    ∷ code 7 (118 ∷ [])
    ∷ code 6 (44 ∷ [])
    ∷ code 5 (8 ∷ [])
    ∷ code 5 (9 ∷ [])
    ∷ code 6 (45 ∷ [])
    ∷ code 7 (119 ∷ [])
    ∷ code 7 (120 ∷ [])
    ∷ code 7 (121 ∷ [])
    ∷ code 7 (122 ∷ [])
    ∷ code 7 (123 ∷ [])
    ∷ code 15 (255 ∷ 126 ∷ [])
    ∷ code 11 (255 ∷ 4 ∷ [])
    ∷ code 14 (255 ∷ 61 ∷ [])
    ∷ code 13 (255 ∷ 29 ∷ [])
    ∷ code 28 (255 ∷ 255 ∷ 255 ∷ 12 ∷ [])
    ∷ code 20 (255 ∷ 254 ∷ 6 ∷ [])
    ∷ code 22 (255 ∷ 255 ∷ 18 ∷ [])
    ∷ code 20 (255 ∷ 254 ∷ 7 ∷ [])
    ∷ code 20 (255 ∷ 254 ∷ 8 ∷ [])
    ∷ code 22 (255 ∷ 255 ∷ 19 ∷ [])
    ∷ code 22 (255 ∷ 255 ∷ 20 ∷ [])
    ∷ code 22 (255 ∷ 255 ∷ 21 ∷ [])
    ∷ code 23 (255 ∷ 255 ∷ 89 ∷ [])
    ∷ code 22 (255 ∷ 255 ∷ 22 ∷ [])
    ∷ code 23 (255 ∷ 255 ∷ 90 ∷ [])
    ∷ code 23 (255 ∷ 255 ∷ 91 ∷ [])
    ∷ code 23 (255 ∷ 255 ∷ 92 ∷ [])
    ∷ code 23 (255 ∷ 255 ∷ 93 ∷ [])
    ∷ code 23 (255 ∷ 255 ∷ 94 ∷ [])
    ∷ code 24 (255 ∷ 255 ∷ 235 ∷ [])
    ∷ code 23 (255 ∷ 255 ∷ 95 ∷ [])
    ∷ code 24 (255 ∷ 255 ∷ 236 ∷ [])
    ∷ code 24 (255 ∷ 255 ∷ 237 ∷ [])
    ∷ code 22 (255 ∷ 255 ∷ 23 ∷ [])
    ∷ code 23 (255 ∷ 255 ∷ 96 ∷ [])
    ∷ code 24 (255 ∷ 255 ∷ 238 ∷ [])
    ∷ code 23 (255 ∷ 255 ∷ 97 ∷ [])
    ∷ code 23 (255 ∷ 255 ∷ 98 ∷ [])
    ∷ code 23 (255 ∷ 255 ∷ 99 ∷ [])
    ∷ code 23 (255 ∷ 255 ∷ 100 ∷ [])
    ∷ code 21 (255 ∷ 254 ∷ 28 ∷ [])
    ∷ code 22 (255 ∷ 255 ∷ 24 ∷ [])
    ∷ code 23 (255 ∷ 255 ∷ 101 ∷ [])
    ∷ code 22 (255 ∷ 255 ∷ 25 ∷ [])
    ∷ code 23 (255 ∷ 255 ∷ 102 ∷ [])
    ∷ code 23 (255 ∷ 255 ∷ 103 ∷ [])
    ∷ code 24 (255 ∷ 255 ∷ 239 ∷ [])
    ∷ code 22 (255 ∷ 255 ∷ 26 ∷ [])
    ∷ code 21 (255 ∷ 254 ∷ 29 ∷ [])
    ∷ code 20 (255 ∷ 254 ∷ 9 ∷ [])
    ∷ code 22 (255 ∷ 255 ∷ 27 ∷ [])
    ∷ code 22 (255 ∷ 255 ∷ 28 ∷ [])
    ∷ code 23 (255 ∷ 255 ∷ 104 ∷ [])
    ∷ code 23 (255 ∷ 255 ∷ 105 ∷ [])
    ∷ code 21 (255 ∷ 254 ∷ 30 ∷ [])
    ∷ code 23 (255 ∷ 255 ∷ 106 ∷ [])
    ∷ code 22 (255 ∷ 255 ∷ 29 ∷ [])
    ∷ code 22 (255 ∷ 255 ∷ 30 ∷ [])
    ∷ code 24 (255 ∷ 255 ∷ 240 ∷ [])
    ∷ code 21 (255 ∷ 254 ∷ 31 ∷ [])
    ∷ code 22 (255 ∷ 255 ∷ 31 ∷ [])
    ∷ code 23 (255 ∷ 255 ∷ 107 ∷ [])
    ∷ code 23 (255 ∷ 255 ∷ 108 ∷ [])
    ∷ code 21 (255 ∷ 255 ∷ 0 ∷ [])
    ∷ code 21 (255 ∷ 255 ∷ 1 ∷ [])
    ∷ code 22 (255 ∷ 255 ∷ 32 ∷ [])
    ∷ code 21 (255 ∷ 255 ∷ 2 ∷ [])
    ∷ code 23 (255 ∷ 255 ∷ 109 ∷ [])
    ∷ code 22 (255 ∷ 255 ∷ 33 ∷ [])
    ∷ code 23 (255 ∷ 255 ∷ 110 ∷ [])
    ∷ code 23 (255 ∷ 255 ∷ 111 ∷ [])
    ∷ code 20 (255 ∷ 254 ∷ 10 ∷ [])
    ∷ code 22 (255 ∷ 255 ∷ 34 ∷ [])
    ∷ code 22 (255 ∷ 255 ∷ 35 ∷ [])
    ∷ code 22 (255 ∷ 255 ∷ 36 ∷ [])
    ∷ code 23 (255 ∷ 255 ∷ 112 ∷ [])
    ∷ code 22 (255 ∷ 255 ∷ 37 ∷ [])
    ∷ code 22 (255 ∷ 255 ∷ 38 ∷ [])
    ∷ code 23 (255 ∷ 255 ∷ 113 ∷ [])
    ∷ code 26 (255 ∷ 255 ∷ 248 ∷ 0 ∷ [])
    ∷ code 26 (255 ∷ 255 ∷ 248 ∷ 1 ∷ [])
    ∷ code 20 (255 ∷ 254 ∷ 11 ∷ [])
    ∷ code 19 (255 ∷ 254 ∷ 1 ∷ [])
    ∷ code 22 (255 ∷ 255 ∷ 39 ∷ [])
    ∷ code 23 (255 ∷ 255 ∷ 114 ∷ [])
    ∷ code 22 (255 ∷ 255 ∷ 40 ∷ [])
    ∷ code 25 (255 ∷ 255 ∷ 246 ∷ 0 ∷ [])
    ∷ code 26 (255 ∷ 255 ∷ 248 ∷ 2 ∷ [])
    ∷ code 26 (255 ∷ 255 ∷ 248 ∷ 3 ∷ [])
    ∷ code 26 (255 ∷ 255 ∷ 249 ∷ 0 ∷ [])
    ∷ code 27 (255 ∷ 255 ∷ 251 ∷ 6 ∷ [])
    ∷ code 27 (255 ∷ 255 ∷ 251 ∷ 7 ∷ [])
    ∷ code 26 (255 ∷ 255 ∷ 249 ∷ 1 ∷ [])
    ∷ code 24 (255 ∷ 255 ∷ 241 ∷ [])
    ∷ code 25 (255 ∷ 255 ∷ 246 ∷ 1 ∷ [])
    ∷ code 19 (255 ∷ 254 ∷ 2 ∷ [])
    ∷ code 21 (255 ∷ 255 ∷ 3 ∷ [])
    ∷ code 26 (255 ∷ 255 ∷ 249 ∷ 2 ∷ [])
    ∷ code 27 (255 ∷ 255 ∷ 252 ∷ 0 ∷ [])
    ∷ code 27 (255 ∷ 255 ∷ 252 ∷ 1 ∷ [])
    ∷ code 26 (255 ∷ 255 ∷ 249 ∷ 3 ∷ [])
    ∷ code 27 (255 ∷ 255 ∷ 252 ∷ 2 ∷ [])
    ∷ code 24 (255 ∷ 255 ∷ 242 ∷ [])
    ∷ code 21 (255 ∷ 255 ∷ 4 ∷ [])
    ∷ code 21 (255 ∷ 255 ∷ 5 ∷ [])
    ∷ code 26 (255 ∷ 255 ∷ 250 ∷ 0 ∷ [])
    ∷ code 26 (255 ∷ 255 ∷ 250 ∷ 1 ∷ [])
    ∷ code 28 (255 ∷ 255 ∷ 255 ∷ 13 ∷ [])
    ∷ code 27 (255 ∷ 255 ∷ 252 ∷ 3 ∷ [])
    ∷ code 27 (255 ∷ 255 ∷ 252 ∷ 4 ∷ [])
    ∷ code 27 (255 ∷ 255 ∷ 252 ∷ 5 ∷ [])
    ∷ code 20 (255 ∷ 254 ∷ 12 ∷ [])
    ∷ code 24 (255 ∷ 255 ∷ 243 ∷ [])
    ∷ code 20 (255 ∷ 254 ∷ 13 ∷ [])
    ∷ code 21 (255 ∷ 255 ∷ 6 ∷ [])
    ∷ code 22 (255 ∷ 255 ∷ 41 ∷ [])
    ∷ code 21 (255 ∷ 255 ∷ 7 ∷ [])
    ∷ code 21 (255 ∷ 255 ∷ 8 ∷ [])
    ∷ code 23 (255 ∷ 255 ∷ 115 ∷ [])
    ∷ code 22 (255 ∷ 255 ∷ 42 ∷ [])
    ∷ code 22 (255 ∷ 255 ∷ 43 ∷ [])
    ∷ code 25 (255 ∷ 255 ∷ 247 ∷ 0 ∷ [])
    ∷ code 25 (255 ∷ 255 ∷ 247 ∷ 1 ∷ [])
    ∷ code 24 (255 ∷ 255 ∷ 244 ∷ [])
    ∷ code 24 (255 ∷ 255 ∷ 245 ∷ [])
    ∷ code 26 (255 ∷ 255 ∷ 250 ∷ 2 ∷ [])
    ∷ code 23 (255 ∷ 255 ∷ 116 ∷ [])
    ∷ code 26 (255 ∷ 255 ∷ 250 ∷ 3 ∷ [])
    ∷ code 27 (255 ∷ 255 ∷ 252 ∷ 6 ∷ [])
    ∷ code 26 (255 ∷ 255 ∷ 251 ∷ 0 ∷ [])
    ∷ code 26 (255 ∷ 255 ∷ 251 ∷ 1 ∷ [])
    ∷ code 27 (255 ∷ 255 ∷ 252 ∷ 7 ∷ [])
    ∷ code 27 (255 ∷ 255 ∷ 253 ∷ 0 ∷ [])
    ∷ code 27 (255 ∷ 255 ∷ 253 ∷ 1 ∷ [])
    ∷ code 27 (255 ∷ 255 ∷ 253 ∷ 2 ∷ [])
    ∷ code 27 (255 ∷ 255 ∷ 253 ∷ 3 ∷ [])
    ∷ code 28 (255 ∷ 255 ∷ 255 ∷ 14 ∷ [])
    ∷ code 27 (255 ∷ 255 ∷ 253 ∷ 4 ∷ [])
    ∷ code 27 (255 ∷ 255 ∷ 253 ∷ 5 ∷ [])
    ∷ code 27 (255 ∷ 255 ∷ 253 ∷ 6 ∷ [])
    ∷ code 27 (255 ∷ 255 ∷ 253 ∷ 7 ∷ [])
    ∷ code 27 (255 ∷ 255 ∷ 254 ∷ 0 ∷ [])
    ∷ code 26 (255 ∷ 255 ∷ 251 ∷ 2 ∷ [])
    ∷ []

-- `hpack_encode`: `ends` gives the buffer.
unfoldable pub hpack_encode : List ℕ → Option (List ℕ)
unfolding put_all new
hpack_encode bytes = elim (put_all hpack_string bytes new) [ none ↦ none | some e ↦ some e.buffer ]
