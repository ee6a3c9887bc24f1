-- ===== src/Qpack/Huffman/Tree.antt =====
-- The tables of `HuffmanDecoder`s of h3/src/qpack/prefix_string/decode.rs, as `bits_decode!` builds
-- them, the leaves first.
use h.Prelude.{ℕ, List}
use h.Prelude.{Outcome, length, ◌*◌, ◌+◌}
use h.Qpack.Huffman.{start}
use h.Qpack.Huffman.Decoder.{HuffmanDecoder, decoder, no_more, sym, partial, collect, HuffmanError}

abbrev eof : HuffmanDecoder
eof = decoder 8 no_more

abbrev end31_1 : HuffmanDecoder
end31_1 = decoder 2 (sym 10 (sym 13 (sym 22 (partial eof no_more))))

abbrev end27b_1111 : HuffmanDecoder
end27b_1111 = decoder 1 (sym 249 (partial end31_1 no_more))

abbrev end27b_1110 : HuffmanDecoder
end27b_1110 = decoder 1 (sym 127 (sym 220 no_more))

abbrev end27b_1101 : HuffmanDecoder
end27b_1101 = decoder 1 (sym 30 (sym 31 no_more))

abbrev end27b_1100 : HuffmanDecoder
end27b_1100 = decoder 1 (sym 28 (sym 29 no_more))

abbrev end27b_1011 : HuffmanDecoder
end27b_1011 = decoder 1 (sym 26 (sym 27 no_more))

abbrev end27b_1010 : HuffmanDecoder
end27b_1010 = decoder 1 (sym 24 (sym 25 no_more))

abbrev end27b_1001 : HuffmanDecoder
end27b_1001 = decoder 1 (sym 21 (sym 23 no_more))

abbrev end27b_1000 : HuffmanDecoder
end27b_1000 = decoder 1 (sym 19 (sym 20 no_more))

abbrev end27b_0111 : HuffmanDecoder
end27b_0111 = decoder 1 (sym 17 (sym 18 no_more))

abbrev end27b_0110 : HuffmanDecoder
end27b_0110 = decoder 1 (sym 15 (sym 16 no_more))

abbrev end27b_0101 : HuffmanDecoder
end27b_0101 = decoder 1 (sym 12 (sym 14 no_more))

abbrev end27b_0100 : HuffmanDecoder
end27b_0100 = decoder 1 (sym 8 (sym 11 no_more))

abbrev end27b_0011 : HuffmanDecoder
end27b_0011 = decoder 1 (sym 6 (sym 7 no_more))

abbrev end27b_0010 : HuffmanDecoder
end27b_0010 = decoder 1 (sym 4 (sym 5 no_more))

abbrev end27b_0001 : HuffmanDecoder
end27b_0001 = decoder 1 (sym 2 (sym 3 no_more))

abbrev end23b_1111 : HuffmanDecoder
end23b_1111 = decoder 4 (
    sym 254 (
      partial end27b_0001 (
        partial end27b_0010 (
          partial end27b_0011 (
            partial end27b_0100 (
              partial end27b_0101 (
                partial end27b_0110 (
                  partial end27b_0111 (
                    partial end27b_1000 (
                      partial end27b_1001 (
                        partial end27b_1010 (
                          partial end27b_1011 (
                            partial end27b_1100 (
                              partial end27b_1101
                                (partial end27b_1110 (partial end27b_1111 no_more))))))))))))))))

abbrev end23b_1110 : HuffmanDecoder
end23b_1110 = decoder 4 (
    sym 211 (
      sym 212 (
        sym 214 (
          sym 221 (
            sym 222 (
              sym 223 (
                sym 241 (
                  sym 244 (
                    sym 245 (
                      sym 246 (
                        sym 247 (sym 248 (sym 250 (sym 251 (sym 252 (sym 253 no_more))))))))))))))))

abbrev end27a_111 : HuffmanDecoder
end27a_111 = decoder 1 (sym 203 (sym 204 no_more))

abbrev end23b_1101 : HuffmanDecoder
end23b_1101 = decoder 3 (
    sym 218
      (sym 219 (sym 238 (sym 240 (sym 242 (sym 243 (sym 255 (partial end27a_111 no_more))))))))

abbrev end23b_1100 : HuffmanDecoder
end23b_1100 =
    decoder 3
      (sym 192 (sym 193 (sym 200 (sym 201 (sym 202 (sym 205 (sym 210 (sym 213 no_more))))))))

abbrev end23b_1011 : HuffmanDecoder
end23b_1011 = decoder 2 (sym 199 (sym 207 (sym 234 (sym 235 no_more))))

abbrev end23b_1010 : HuffmanDecoder
end23b_1010 = decoder 1 (sym 236 (sym 237 no_more))

abbrev end23b_1001 : HuffmanDecoder
end23b_1001 = decoder 1 (sym 215 (sym 225 no_more))

abbrev end23b_1000 : HuffmanDecoder
end23b_1000 = decoder 1 (sym 171 (sym 206 no_more))

abbrev end23b_0111 : HuffmanDecoder
end23b_0111 = decoder 1 (sym 148 (sym 159 no_more))

abbrev end23b_0110 : HuffmanDecoder
end23b_0110 = decoder 1 (sym 144 (sym 145 no_more))

abbrev end23b_0101 : HuffmanDecoder
end23b_0101 = decoder 1 (sym 9 (sym 142 no_more))

abbrev end19_1111 : HuffmanDecoder
end19_1111 = decoder 4 (
    sym 188 (
      sym 191 (
        sym 197 (
          sym 231 (
            sym 239 (
              partial end23b_0101 (
                partial end23b_0110 (
                  partial end23b_0111 (
                    partial end23b_1000 (
                      partial end23b_1001 (
                        partial end23b_1010 (
                          partial end23b_1011 (
                            partial end23b_1100 (
                              partial end23b_1101
                                (partial end23b_1110 (partial end23b_1111 no_more))))))))))))))))

abbrev end19_1110 : HuffmanDecoder
end19_1110 = decoder 4 (
    sym 147 (
      sym 149 (
        sym 150 (
          sym 151 (
            sym 152 (
              sym 155 (
                sym 157 (
                  sym 158 (
                    sym 165 (
                      sym 166 (
                        sym 168 (sym 174 (sym 175 (sym 180 (sym 182 (sym 183 no_more))))))))))))))))

abbrev end23a_111 : HuffmanDecoder
end23a_111 = decoder 1 (sym 141 (sym 143 no_more))

abbrev end23a_110 : HuffmanDecoder
end23a_110 = decoder 1 (sym 139 (sym 140 no_more))

abbrev end23a_101 : HuffmanDecoder
end23a_101 = decoder 1 (sym 137 (sym 138 no_more))

abbrev end23a_100 : HuffmanDecoder
end23a_100 = decoder 1 (sym 1 (sym 135 no_more))

abbrev end19_1101 : HuffmanDecoder
end19_1101 = decoder 3 (
    sym 198 (
      sym 228 (
        sym 232 (
          sym 233 (
            partial end23a_100
              (partial end23a_101 (partial end23a_110 (partial end23a_111 no_more))))))))

abbrev end19_1100 : HuffmanDecoder
end19_1100 =
    decoder 3
      (sym 178 (sym 181 (sym 185 (sym 186 (sym 187 (sym 189 (sym 190 (sym 196 no_more))))))))

abbrev end19_1011 : HuffmanDecoder
end19_1011 =
    decoder 3
      (sym 154 (sym 156 (sym 160 (sym 163 (sym 164 (sym 169 (sym 170 (sym 173 no_more))))))))

abbrev end19_1010_11 : HuffmanDecoder
end19_1010_11 = decoder 1 (sym 136 (sym 146 no_more))

abbrev end19_1010_10 : HuffmanDecoder
end19_1010_10 = decoder 1 (sym 133 (sym 134 no_more))

abbrev end19_1010_01 : HuffmanDecoder
end19_1010_01 = decoder 1 (sym 129 (sym 132 no_more))

abbrev end19_1010 : HuffmanDecoder
end19_1010 =
    decoder 2
      (sym 230 (partial end19_1010_01 (partial end19_1010_10 (partial end19_1010_11 no_more))))

abbrev end19_1001 : HuffmanDecoder
end19_1001 = decoder 2 (sym 216 (sym 217 (sym 227 (sym 229 no_more))))

abbrev end19_1000 : HuffmanDecoder
end19_1000 = decoder 2 (sym 176 (sym 177 (sym 179 (sym 209 no_more))))

abbrev end19_0111 : HuffmanDecoder
end19_0111 = decoder 2 (sym 153 (sym 161 (sym 167 (sym 172 no_more))))

abbrev end19_0110 : HuffmanDecoder
end19_0110 = decoder 1 (sym 224 (sym 226 no_more))

abbrev end19_0101 : HuffmanDecoder
end19_0101 = decoder 1 (sym 184 (sym 194 no_more))

abbrev end19_0100 : HuffmanDecoder
end19_0100 = decoder 1 (sym 131 (sym 162 no_more))

abbrev end19_0011 : HuffmanDecoder
end19_0011 = decoder 1 (sym 128 (sym 130 no_more))

abbrev end15_1 : HuffmanDecoder
end15_1 = decoder 4 (
    sym 92 (
      sym 195 (
        sym 208 (
          partial end19_0011 (
            partial end19_0100 (
              partial end19_0101 (
                partial end19_0110 (
                  partial end19_0111 (
                    partial end19_1000 (
                      partial end19_1001 (
                        partial end19_1010 (
                          partial end19_1011 (
                            partial end19_1100 (
                              partial end19_1101
                                (partial end19_1110 (partial end19_1111 no_more))))))))))))))))

abbrev end14_1 : HuffmanDecoder
end14_1 = decoder 1 (sym 123 (partial end15_1 no_more))

abbrev end14_0 : HuffmanDecoder
end14_0 = decoder 1 (sym 60 (sym 96 no_more))

abbrev end13_11 : HuffmanDecoder
end13_11 = decoder 1 (partial end14_0 (partial end14_1 no_more))

abbrev end13_10 : HuffmanDecoder
end13_10 = decoder 1 (sym 94 (sym 125 no_more))

abbrev end9b_11 : HuffmanDecoder
end9b_11 = decoder 2 (sym 93 (sym 126 (partial end13_10 (partial end13_11 no_more))))

abbrev end9b_10 : HuffmanDecoder
end9b_10 = decoder 2 (sym 0 (sym 36 (sym 64 (sym 91 no_more))))

abbrev end9b_01 : HuffmanDecoder
end9b_01 = decoder 1 (sym 35 (sym 62 no_more))

abbrev end8_1 : HuffmanDecoder
end8_1 = decoder 2 (sym 124 (partial end9b_01 (partial end9b_10 (partial end9b_11 no_more))))

abbrev end9a_1 : HuffmanDecoder
end9a_1 = decoder 1 (sym 39 (sym 43 no_more))

abbrev end8_0 : HuffmanDecoder
end8_0 = decoder 1 (sym 63 (partial end9a_1 no_more))

abbrev end7_1 : HuffmanDecoder
end7_1 = decoder 1 (partial end8_0 (partial end8_1 no_more))

abbrev end7_0 : HuffmanDecoder
end7_0 = decoder 2 (sym 33 (sym 34 (sym 40 (sym 41 no_more))))

abbrev pub end5_11 : HuffmanDecoder
end5_11 = decoder 1 (partial end7_0 (partial end7_1 no_more))

abbrev end5_10 : HuffmanDecoder
end5_10 = decoder 1 (sym 88 (sym 90 no_more))

abbrev end5_01 : HuffmanDecoder
end5_01 = decoder 1 (sym 44 (sym 59 no_more))

abbrev end5_00 : HuffmanDecoder
end5_00 = decoder 1 (sym 38 (sym 42 no_more))

abbrev pub end0_11111 : HuffmanDecoder
end0_11111 =
    decoder 2 (partial end5_00 (partial end5_01 (partial end5_10 (partial end5_11 no_more))))

abbrev end0_11110 : HuffmanDecoder
end0_11110 = decoder 2 (sym 119 (sym 120 (sym 121 (sym 122 no_more))))

abbrev end0_11101 : HuffmanDecoder
end0_11101 = decoder 2 (sym 106 (sym 107 (sym 113 (sym 118 no_more))))

abbrev end0_11100 : HuffmanDecoder
end0_11100 = decoder 2 (sym 85 (sym 86 (sym 87 (sym 89 no_more))))

abbrev end0_11011 : HuffmanDecoder
end0_11011 = decoder 2 (sym 81 (sym 82 (sym 83 (sym 84 no_more))))

abbrev end0_11010 : HuffmanDecoder
end0_11010 = decoder 2 (sym 77 (sym 78 (sym 79 (sym 80 no_more))))

abbrev end0_11001 : HuffmanDecoder
end0_11001 = decoder 2 (sym 73 (sym 74 (sym 75 (sym 76 no_more))))

abbrev end0_11000 : HuffmanDecoder
end0_11000 = decoder 2 (sym 69 (sym 70 (sym 71 (sym 72 no_more))))

abbrev end0_10111 : HuffmanDecoder
end0_10111 = decoder 2 (sym 58 (sym 66 (sym 67 (sym 68 no_more))))

abbrev end0_10110 : HuffmanDecoder
end0_10110 = decoder 1 (sym 114 (sym 117 no_more))

abbrev end0_10101 : HuffmanDecoder
end0_10101 = decoder 1 (sym 110 (sym 112 no_more))

abbrev end0_10100 : HuffmanDecoder
end0_10100 = decoder 1 (sym 108 (sym 109 no_more))

abbrev end0_10011 : HuffmanDecoder
end0_10011 = decoder 1 (sym 103 (sym 104 no_more))

abbrev end0_10010 : HuffmanDecoder
end0_10010 = decoder 1 (sym 100 (sym 102 no_more))

abbrev end0_10001 : HuffmanDecoder
end0_10001 = decoder 1 (sym 95 (sym 98 no_more))

abbrev end0_10000 : HuffmanDecoder
end0_10000 = decoder 1 (sym 61 (sym 65 no_more))

abbrev end0_01111 : HuffmanDecoder
end0_01111 = decoder 1 (sym 56 (sym 57 no_more))

abbrev end0_01110 : HuffmanDecoder
end0_01110 = decoder 1 (sym 54 (sym 55 no_more))

abbrev end0_01101 : HuffmanDecoder
end0_01101 = decoder 1 (sym 52 (sym 53 no_more))

abbrev end0_01100 : HuffmanDecoder
end0_01100 = decoder 1 (sym 47 (sym 51 no_more))

abbrev end0_01011 : HuffmanDecoder
end0_01011 = decoder 1 (sym 45 (sym 46 no_more))

abbrev end0_01010 : HuffmanDecoder
end0_01010 = decoder 1 (sym 32 (sym 37 no_more))

abbrev pub hpack_string : HuffmanDecoder
hpack_string = decoder 5 (
    sym 48 (
      sym 49 (
        sym 50 (
          sym 97 (
            sym 99 (
              sym 101 (
                sym 105 (
                  sym 111 (
                    sym 115 (
                      sym 116 (
                        partial end0_01010 (
                          partial end0_01011 (
                            partial end0_01100 (
                              partial end0_01101 (
                                partial end0_01110 (
                                  partial end0_01111 (
                                    partial end0_10000 (
                                      partial end0_10001 (
                                        partial end0_10010 (
                                          partial end0_10011 (
                                            partial end0_10100 (
                                              partial end0_10101 (
                                                partial end0_10110 (
                                                  partial end0_10111 (
                                                    partial end0_11000 (
                                                      partial end0_11001 (
                                                        partial end0_11010 (
                                                          partial end0_11011 (
                                                            partial end0_11100 (
                                                            partial end0_11101 (
                                                            partial end0_11110 (
                                                            partial end0_11111
                                                            no_more))))))))))))))))))))))))))))))))

-- `hpack_decode`, collected: each symbol takes a bit at least, so this many steps are enough.
unfoldable pub hpack_decode : List ℕ → Outcome HuffmanError (List ℕ)
unfolding collect
hpack_decode input = collect hpack_string (8 * length input + 1) start input
