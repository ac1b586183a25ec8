-- ===== src/UnitTests/Vectors/AesGcm128.antt =====
-- src/test_vectors.rs, aes_gcm_128_sha256; each hexadecimal string is the list of its bytes.
use secure_frame_rs.Prelude.{ℕ, List, [], ◌∷◌}
use secure_frame_rs.Crypto.CipherSuite.{aes_gcm128_sha256}
use secure_frame_rs.UnitTests.Vectors.{TestVector}

abbrev pub key : List ℕ
key = 46 ∷ 162 ∷ 232 ∷ 22 ∷ 63 ∷ 245 ∷ 108 ∷ 6 ∷ 19 ∷ 230 ∷ 250 ∷ 159 ∷ 32 ∷ 162 ∷ 19 ∷ 218 ∷ []

abbrev pub salt : List ℕ
salt = 168 ∷ 4 ∷ 120 ∷ 179 ∷ 246 ∷ 251 ∷ 161 ∷ 153 ∷ 131 ∷ 213 ∷ 64 ∷ 213 ∷ []

abbrev pub key_material : List ℕ
key_material = 48 ∷ 49 ∷ 50 ∷ 51 ∷ 52 ∷ 53 ∷ 54 ∷ 55 ∷ 56 ∷ 57 ∷ 58 ∷ 59 ∷ 60 ∷ 61 ∷ 62 ∷ 63 ∷ []

abbrev plain_text : List ℕ
plain_text =
    70 ∷ 114 ∷ 111 ∷ 109 ∷ 32 ∷ 104 ∷ 101 ∷ 97 ∷ 118 ∷ 101 ∷ 110 ∷ 108 ∷ 121 ∷ 32 ∷ 104 ∷ 97 ∷ 114
    ∷ 109 ∷ 111 ∷ 110 ∷ 121 ∷ 32 ∷ 47 ∷ 47 ∷ 32 ∷ 84 ∷ 104 ∷ 105 ∷ 115 ∷ 32 ∷ 117 ∷ 110 ∷ 105 ∷ 118
    ∷ 101 ∷ 114 ∷ 115 ∷ 97 ∷ 108 ∷ 32 ∷ 102 ∷ 114 ∷ 97 ∷ 109 ∷ 101 ∷ 32 ∷ 98 ∷ 101 ∷ 103 ∷ 97 ∷ 110
    ∷ []

abbrev create_test_vector : ℕ → ℕ → List ℕ → List ℕ → List ℕ → TestVector
create_test_vector key_id frame_count header nonce cipher_text = record {
  cipher_suite_variant = aes_gcm128_sha256;
  key_material = key_material;
  key = key;
  salt = salt;
  plain_text = plain_text;
  key_id = key_id;
  frame_count = frame_count;
  header = header;
  nonce = nonce;
  cipher_text = cipher_text;
}

abbrev first : TestVector
first =
    create_test_vector 7 0 (23 ∷ 0 ∷ [])
      (168 ∷ 4 ∷ 120 ∷ 179 ∷ 246 ∷ 251 ∷ 161 ∷ 153 ∷ 131 ∷ 213 ∷ 64 ∷ 213 ∷ [])
      (23 ∷ 0 ∷ 14 ∷ 66 ∷ 98 ∷ 85 ∷ 228 ∷ 126 ∷ 215 ∷ 13 ∷ 215 ∷ 209 ∷ 93 ∷ 105 ∷ 215 ∷ 89 ∷ 191
        ∷ 69 ∷ 144 ∷ 50 ∷ 202 ∷ 21 ∷ 245 ∷ 232 ∷ 178 ∷ 169 ∷ 30 ∷ 125 ∷ 52 ∷ 138 ∷ 167 ∷ 193 ∷ 134
        ∷ 212 ∷ 3 ∷ 246 ∷ 32 ∷ 128 ∷ 28 ∷ 73 ∷ 91 ∷ 23 ∷ 23 ∷ 163 ∷ 80 ∷ 151 ∷ 65 ∷ 26 ∷ 169 ∷ 124
        ∷ 187 ∷ 20 ∷ 6 ∷ 113 ∷ 235 ∷ 59 ∷ 73 ∷ 172 ∷ 55 ∷ 117 ∷ 146 ∷ 109 ∷ 183 ∷ 77 ∷ 87 ∷ 185 ∷ 30
        ∷ 142 ∷ 108 ∷ [])

abbrev second : TestVector
second =
    create_test_vector 7 1 (23 ∷ 1 ∷ [])
      (168 ∷ 4 ∷ 120 ∷ 179 ∷ 246 ∷ 251 ∷ 161 ∷ 153 ∷ 131 ∷ 213 ∷ 64 ∷ 212 ∷ [])
      (23 ∷ 1 ∷ 3 ∷ 187 ∷ 175 ∷ 163 ∷ 74 ∷ 218 ∷ 138 ∷ 107 ∷ 159 ∷ 32 ∷ 102 ∷ 188 ∷ 52 ∷ 161 ∷ 149
        ∷ 157 ∷ 135 ∷ 56 ∷ 76 ∷ 159 ∷ 75 ∷ 28 ∷ 227 ∷ 79 ∷ 237 ∷ 88 ∷ 233 ∷ 56 ∷ 189 ∷ 225 ∷ 67 ∷ 57
        ∷ 57 ∷ 16 ∷ 177 ∷ 174 ∷ 181 ∷ 91 ∷ 72 ∷ 217 ∷ 29 ∷ 91 ∷ 13 ∷ 179 ∷ 234 ∷ 103 ∷ 227 ∷ 208
        ∷ 224 ∷ 43 ∷ 132 ∷ 58 ∷ 253 ∷ 65 ∷ 99 ∷ 12 ∷ 148 ∷ 11 ∷ 25 ∷ 72 ∷ 231 ∷ 45 ∷ 212 ∷ 83 ∷ 150
        ∷ 164 ∷ 58 ∷ [])

abbrev third : TestVector
third =
    create_test_vector 7 2 (23 ∷ 2 ∷ [])
      (168 ∷ 4 ∷ 120 ∷ 179 ∷ 246 ∷ 251 ∷ 161 ∷ 153 ∷ 131 ∷ 213 ∷ 64 ∷ 215 ∷ [])
      (23 ∷ 2 ∷ 88 ∷ 213 ∷ 138 ∷ 222 ∷ 189 ∷ 139 ∷ 246 ∷ 243 ∷ 204 ∷ 12 ∷ 31 ∷ 202 ∷ 207 ∷ 52 ∷ 186
        ∷ 77 ∷ 122 ∷ 118 ∷ 59 ∷ 38 ∷ 131 ∷ 254 ∷ 48 ∷ 42 ∷ 87 ∷ 241 ∷ 190 ∷ 127 ∷ 42 ∷ 39 ∷ 75 ∷ 248
        ∷ 27 ∷ 34 ∷ 54 ∷ 153 ∷ 95 ∷ 236 ∷ 18 ∷ 3 ∷ 202 ∷ 219 ∷ 20 ∷ 108 ∷ 212 ∷ 2 ∷ 225 ∷ 197 ∷ 45
        ∷ 94 ∷ 106 ∷ 16 ∷ 152 ∷ 157 ∷ 254 ∷ 15 ∷ 65 ∷ 22 ∷ 218 ∷ 30 ∷ 228 ∷ 194 ∷ 250 ∷ 208 ∷ 210
        ∷ 31 ∷ 143 ∷ [])

abbrev fourth : TestVector
fourth =
    create_test_vector 15 170 (25 ∷ 15 ∷ 170 ∷ [])
      (168 ∷ 4 ∷ 120 ∷ 179 ∷ 246 ∷ 251 ∷ 161 ∷ 153 ∷ 131 ∷ 213 ∷ 64 ∷ 127 ∷ [])
      (25 ∷ 15 ∷ 170 ∷ 208 ∷ 177 ∷ 116 ∷ 59 ∷ 245 ∷ 36 ∷ 143 ∷ 144 ∷ 134 ∷ 156 ∷ 148 ∷ 86 ∷ 54 ∷ 109
        ∷ 85 ∷ 114 ∷ 77 ∷ 22 ∷ 187 ∷ 224 ∷ 128 ∷ 96 ∷ 135 ∷ 88 ∷ 21 ∷ 86 ∷ 94 ∷ 144 ∷ 177 ∷ 20 ∷ 249
        ∷ 204 ∷ 189 ∷ 186 ∷ 25 ∷ 36 ∷ 34 ∷ 179 ∷ 56 ∷ 72 ∷ 161 ∷ 174 ∷ 30 ∷ 59 ∷ 210 ∷ 102 ∷ 160 ∷ 1
        ∷ 178 ∷ 245 ∷ 187 ∷ 114 ∷ 113 ∷ 18 ∷ 119 ∷ 46 ∷ 0 ∷ 114 ∷ 234 ∷ 134 ∷ 121 ∷ 202 ∷ 24 ∷ 80
        ∷ 207 ∷ 17 ∷ 216 ∷ [])

abbrev fifth : TestVector
fifth =
    create_test_vector 511 170 (26 ∷ 1 ∷ 255 ∷ 170 ∷ [])
      (168 ∷ 4 ∷ 120 ∷ 179 ∷ 246 ∷ 251 ∷ 161 ∷ 153 ∷ 131 ∷ 213 ∷ 64 ∷ 127 ∷ [])
      (26 ∷ 1 ∷ 255 ∷ 170 ∷ 208 ∷ 177 ∷ 116 ∷ 59 ∷ 245 ∷ 36 ∷ 143 ∷ 144 ∷ 134 ∷ 156 ∷ 148 ∷ 86 ∷ 54
        ∷ 109 ∷ 85 ∷ 114 ∷ 77 ∷ 22 ∷ 187 ∷ 224 ∷ 128 ∷ 96 ∷ 135 ∷ 88 ∷ 21 ∷ 86 ∷ 94 ∷ 144 ∷ 177 ∷ 20
        ∷ 249 ∷ 204 ∷ 189 ∷ 186 ∷ 25 ∷ 36 ∷ 34 ∷ 179 ∷ 56 ∷ 72 ∷ 161 ∷ 174 ∷ 30 ∷ 59 ∷ 210 ∷ 102
        ∷ 160 ∷ 1 ∷ 178 ∷ 245 ∷ 187 ∷ 201 ∷ 198 ∷ 59 ∷ 211 ∷ 151 ∷ 60 ∷ 25 ∷ 189 ∷ 87 ∷ 18 ∷ 127
        ∷ 86 ∷ 83 ∷ 128 ∷ 237 ∷ 74 ∷ [])

abbrev sixth : TestVector
sixth =
    create_test_vector 511 43690 (42 ∷ 1 ∷ 255 ∷ 170 ∷ 170 ∷ [])
      (168 ∷ 4 ∷ 120 ∷ 179 ∷ 246 ∷ 251 ∷ 161 ∷ 153 ∷ 131 ∷ 213 ∷ 234 ∷ 127 ∷ [])
      (42 ∷ 1 ∷ 255 ∷ 170 ∷ 170 ∷ 157 ∷ 230 ∷ 94 ∷ 33 ∷ 228 ∷ 241 ∷ 202 ∷ 34 ∷ 71 ∷ 184 ∷ 121 ∷ 67
        ∷ 192 ∷ 60 ∷ 92 ∷ 183 ∷ 177 ∷ 130 ∷ 9 ∷ 14 ∷ 147 ∷ 213 ∷ 8 ∷ 220 ∷ 251 ∷ 118 ∷ 224 ∷ 129
        ∷ 116 ∷ 198 ∷ 57 ∷ 115 ∷ 86 ∷ 230 ∷ 130 ∷ 210 ∷ 234 ∷ 221 ∷ 171 ∷ 192 ∷ 179 ∷ 193 ∷ 1 ∷ 141
        ∷ 44 ∷ 19 ∷ 195 ∷ 87 ∷ 15 ∷ 97 ∷ 193 ∷ 190 ∷ 170 ∷ 184 ∷ 5 ∷ 242 ∷ 123 ∷ 86 ∷ 94 ∷ 19 ∷ 41
        ∷ 168 ∷ 35 ∷ 167 ∷ 166 ∷ 73 ∷ 182 ∷ [])

abbrev last : TestVector
last =
    create_test_vector 72057594037927935 72057594037927935
      (127 ∷ 255 ∷ 255 ∷ 255 ∷ 255 ∷ 255 ∷ 255 ∷ 255 ∷ 255 ∷ 255 ∷ 255 ∷ 255 ∷ 255 ∷ 255 ∷ 255 ∷ [])
      (168 ∷ 4 ∷ 120 ∷ 179 ∷ 246 ∷ 4 ∷ 94 ∷ 102 ∷ 124 ∷ 42 ∷ 191 ∷ 42 ∷ [])
      (127 ∷ 255 ∷ 255 ∷ 255 ∷ 255 ∷ 255 ∷ 255 ∷ 255 ∷ 255 ∷ 255 ∷ 255 ∷ 255 ∷ 255 ∷ 255 ∷ 255 ∷ 9
        ∷ 152 ∷ 27 ∷ 220 ∷ 218 ∷ 216 ∷ 14 ∷ 56 ∷ 11 ∷ 111 ∷ 116 ∷ 207 ∷ 106 ∷ 253 ∷ 188 ∷ 233 ∷ 70
        ∷ 131 ∷ 155 ∷ 237 ∷ 173 ∷ 213 ∷ 117 ∷ 120 ∷ 191 ∷ 205 ∷ 128 ∷ 157 ∷ 188 ∷ 234 ∷ 83 ∷ 85 ∷ 70
        ∷ 204 ∷ 36 ∷ 102 ∷ 6 ∷ 19 ∷ 210 ∷ 118 ∷ 26 ∷ 222 ∷ 168 ∷ 82 ∷ 21 ∷ 87 ∷ 133 ∷ 1 ∷ 30 ∷ 99
        ∷ 53 ∷ 52 ∷ 244 ∷ 236 ∷ 195 ∷ 184 ∷ 37 ∷ 124 ∷ 141 ∷ 52 ∷ 50 ∷ 28 ∷ 39 ∷ 133 ∷ 74 ∷ 20 ∷ 34
        ∷ [])

abbrev pub get_test_vectors : List TestVector
get_test_vectors = first ∷ second ∷ third ∷ fourth ∷ fifth ∷ sixth ∷ last ∷ []
