-- ===== src/UnitTests/Vectors/AesGcm256.antt =====
-- src/test_vectors.rs, aes_gcm_256_sha512; each hexadecimal string is the list of its bytes.
use secure_frame_rs.Prelude.{ℕ, List, [], ◌∷◌}
use secure_frame_rs.Crypto.CipherSuite.{aes_gcm256_sha512}
use secure_frame_rs.UnitTests.Vectors.{TestVector}

abbrev pub key : List ℕ
key =
    67 ∷ 103 ∷ 116 ∷ 176 ∷ 181 ∷ 174 ∷ 69 ∷ 99 ∷ 61 ∷ 150 ∷ 84 ∷ 127 ∷ 143 ∷ 60 ∷ 176 ∷ 108 ∷ 142
    ∷ 102 ∷ 40 ∷ 239 ∷ 242 ∷ 228 ∷ 37 ∷ 91 ∷ 92 ∷ 77 ∷ 119 ∷ 231 ∷ 33 ∷ 170 ∷ 51 ∷ 85 ∷ []

abbrev pub salt : List ℕ
salt = 49 ∷ 237 ∷ 38 ∷ 249 ∷ 10 ∷ 7 ∷ 46 ∷ 106 ∷ 238 ∷ 100 ∷ 98 ∷ 152 ∷ []

abbrev pub key_material : List ℕ
key_material =
    64 ∷ 65 ∷ 66 ∷ 67 ∷ 68 ∷ 69 ∷ 70 ∷ 71 ∷ 72 ∷ 73 ∷ 74 ∷ 75 ∷ 76 ∷ 77 ∷ 78 ∷ 79 ∷ 80 ∷ 81 ∷ 82
    ∷ 83 ∷ 84 ∷ 85 ∷ 86 ∷ 87 ∷ 88 ∷ 89 ∷ 90 ∷ 91 ∷ 92 ∷ 93 ∷ 94 ∷ 95 ∷ []

abbrev plain_text : List ℕ
plain_text =
    70 ∷ 114 ∷ 111 ∷ 109 ∷ 32 ∷ 104 ∷ 101 ∷ 97 ∷ 118 ∷ 101 ∷ 110 ∷ 108 ∷ 121 ∷ 32 ∷ 104 ∷ 97 ∷ 114
    ∷ 109 ∷ 111 ∷ 110 ∷ 121 ∷ 32 ∷ 47 ∷ 47 ∷ 32 ∷ 84 ∷ 104 ∷ 105 ∷ 115 ∷ 32 ∷ 117 ∷ 110 ∷ 105 ∷ 118
    ∷ 101 ∷ 114 ∷ 115 ∷ 97 ∷ 108 ∷ 32 ∷ 102 ∷ 114 ∷ 97 ∷ 109 ∷ 101 ∷ 32 ∷ 98 ∷ 101 ∷ 103 ∷ 97 ∷ 110
    ∷ []

abbrev create_test_vector : ℕ → ℕ → List ℕ → List ℕ → List ℕ → TestVector
create_test_vector key_id frame_count header nonce cipher_text = record {
  cipher_suite_variant = aes_gcm256_sha512;
  key_material = key_material;
  key = key;
  salt = salt;
  plain_text = plain_text;
  key_id = key_id;
  frame_count = frame_count;
  header = header;
  nonce = nonce;
  cipher_text = cipher_text;
}

abbrev first : TestVector
first =
    create_test_vector 7 0 (23 ∷ 0 ∷ [])
      (49 ∷ 237 ∷ 38 ∷ 249 ∷ 10 ∷ 7 ∷ 46 ∷ 106 ∷ 238 ∷ 100 ∷ 98 ∷ 152 ∷ [])
      (23 ∷ 0 ∷ 243 ∷ 226 ∷ 151 ∷ 193 ∷ 233 ∷ 82 ∷ 7 ∷ 113 ∷ 11 ∷ 211 ∷ 28 ∷ 204 ∷ 75 ∷ 163 ∷ 150
        ∷ 251 ∷ 239 ∷ 123 ∷ 37 ∷ 116 ∷ 64 ∷ 189 ∷ 230 ∷ 56 ∷ 255 ∷ 15 ∷ 60 ∷ 137 ∷ 17 ∷ 84 ∷ 1 ∷ 54
        ∷ 223 ∷ 97 ∷ 178 ∷ 98 ∷ 32 ∷ 36 ∷ 157 ∷ 108 ∷ 67 ∷ 44 ∷ 36 ∷ 90 ∷ 232 ∷ 213 ∷ 94 ∷ 244 ∷ 91
        ∷ 252 ∷ 207 ∷ 50 ∷ 83 ∷ 10 ∷ 21 ∷ 174 ∷ 170 ∷ 243 ∷ 19 ∷ 160 ∷ 56 ∷ 56 ∷ 229 ∷ 27 ∷ 212 ∷ 86
        ∷ 82 ∷ [])

abbrev second : TestVector
second =
    create_test_vector 7 1 (23 ∷ 1 ∷ [])
      (49 ∷ 237 ∷ 38 ∷ 249 ∷ 10 ∷ 7 ∷ 46 ∷ 106 ∷ 238 ∷ 100 ∷ 98 ∷ 153 ∷ [])
      (23 ∷ 1 ∷ 147 ∷ 38 ∷ 139 ∷ 11 ∷ 240 ∷ 48 ∷ 7 ∷ 27 ∷ 255 ∷ 68 ∷ 59 ∷ 182 ∷ 180 ∷ 71 ∷ 27 ∷ 223
        ∷ 177 ∷ 204 ∷ 129 ∷ 188 ∷ 150 ∷ 37 ∷ 244 ∷ 105 ∷ 123 ∷ 3 ∷ 54 ∷ 255 ∷ 70 ∷ 101 ∷ 209 ∷ 95
        ∷ 21 ∷ 47 ∷ 2 ∷ 22 ∷ 148 ∷ 72 ∷ 216 ∷ 169 ∷ 103 ∷ 251 ∷ 6 ∷ 53 ∷ 154 ∷ 135 ∷ 210 ∷ 20 ∷ 83
        ∷ 152 ∷ 222 ∷ 12 ∷ 227 ∷ 251 ∷ 226 ∷ 87 ∷ 176 ∷ 153 ∷ 42 ∷ 61 ∷ 161 ∷ 83 ∷ 117 ∷ 144 ∷ 69
        ∷ 159 ∷ 60 ∷ [])

abbrev third : TestVector
third =
    create_test_vector 7 2 (23 ∷ 2 ∷ [])
      (49 ∷ 237 ∷ 38 ∷ 249 ∷ 10 ∷ 7 ∷ 46 ∷ 106 ∷ 238 ∷ 100 ∷ 98 ∷ 154 ∷ [])
      (23 ∷ 2 ∷ 100 ∷ 150 ∷ 145 ∷ 186 ∷ 39 ∷ 196 ∷ 192 ∷ 26 ∷ 65 ∷ 40 ∷ 15 ∷ 186 ∷ 70 ∷ 87 ∷ 192
        ∷ 63 ∷ 167 ∷ 254 ∷ 33 ∷ 200 ∷ 245 ∷ 200 ∷ 98 ∷ 233 ∷ 9 ∷ 66 ∷ 39 ∷ 195 ∷ 202 ∷ 62 ∷ 192
        ∷ 217 ∷ 70 ∷ 139 ∷ 26 ∷ 44 ∷ 176 ∷ 96 ∷ 255 ∷ 9 ∷ 120 ∷ 242 ∷ 90 ∷ 36 ∷ 230 ∷ 177 ∷ 6 ∷ 245
        ∷ 166 ∷ 225 ∷ 5 ∷ 60 ∷ 27 ∷ 143 ∷ 95 ∷ 206 ∷ 121 ∷ 77 ∷ 136 ∷ 160 ∷ 228 ∷ 129 ∷ 140 ∷ 8 ∷ 30
        ∷ 24 ∷ 234 ∷ [])

abbrev fourth : TestVector
fourth =
    create_test_vector 15 170 (25 ∷ 15 ∷ 170 ∷ [])
      (49 ∷ 237 ∷ 38 ∷ 249 ∷ 10 ∷ 7 ∷ 46 ∷ 106 ∷ 238 ∷ 100 ∷ 98 ∷ 50 ∷ [])
      (25 ∷ 15 ∷ 170 ∷ 40 ∷ 88 ∷ 193 ∷ 11 ∷ 93 ∷ 221 ∷ 35 ∷ 28 ∷ 31 ∷ 38 ∷ 129 ∷ 148 ∷ 144 ∷ 82 ∷ 22
        ∷ 120 ∷ 96 ∷ 58 ∷ 5 ∷ 4 ∷ 72 ∷ 213 ∷ 99 ∷ 197 ∷ 3 ∷ 177 ∷ 253 ∷ 137 ∷ 13 ∷ 2 ∷ 234 ∷ 208
        ∷ 29 ∷ 117 ∷ 79 ∷ 7 ∷ 78 ∷ 203 ∷ 111 ∷ 50 ∷ 218 ∷ 155 ∷ 47 ∷ 56 ∷ 89 ∷ 243 ∷ 128 ∷ 180 ∷ 244
        ∷ 125 ∷ 78 ∷ 221 ∷ 30 ∷ 21 ∷ 244 ∷ 47 ∷ 154 ∷ 45 ∷ 126 ∷ 207 ∷ 172 ∷ 153 ∷ 6 ∷ 126 ∷ 35
        ∷ 131 ∷ 33 ∷ [])

abbrev fifth : TestVector
fifth =
    create_test_vector 511 170 (26 ∷ 1 ∷ 255 ∷ 170 ∷ [])
      (49 ∷ 237 ∷ 38 ∷ 249 ∷ 10 ∷ 7 ∷ 46 ∷ 106 ∷ 238 ∷ 100 ∷ 98 ∷ 50 ∷ [])
      (26 ∷ 1 ∷ 255 ∷ 170 ∷ 40 ∷ 88 ∷ 193 ∷ 11 ∷ 93 ∷ 221 ∷ 35 ∷ 28 ∷ 31 ∷ 38 ∷ 129 ∷ 148 ∷ 144 ∷ 82
        ∷ 22 ∷ 120 ∷ 96 ∷ 58 ∷ 5 ∷ 4 ∷ 72 ∷ 213 ∷ 99 ∷ 197 ∷ 3 ∷ 177 ∷ 253 ∷ 137 ∷ 13 ∷ 2 ∷ 234
        ∷ 208 ∷ 29 ∷ 117 ∷ 79 ∷ 7 ∷ 78 ∷ 203 ∷ 111 ∷ 50 ∷ 218 ∷ 155 ∷ 47 ∷ 56 ∷ 89 ∷ 243 ∷ 128 ∷ 180
        ∷ 244 ∷ 125 ∷ 78 ∷ 59 ∷ 247 ∷ 4 ∷ 14 ∷ 177 ∷ 14 ∷ 194 ∷ 91 ∷ 129 ∷ 38 ∷ 178 ∷ 206 ∷ 123 ∷ 29
        ∷ 157 ∷ 49 ∷ [])

abbrev sixth : TestVector
sixth =
    create_test_vector 511 43690 (42 ∷ 1 ∷ 255 ∷ 170 ∷ 170 ∷ [])
      (49 ∷ 237 ∷ 38 ∷ 249 ∷ 10 ∷ 7 ∷ 46 ∷ 106 ∷ 238 ∷ 100 ∷ 200 ∷ 50 ∷ [])
      (42 ∷ 1 ∷ 255 ∷ 170 ∷ 170 ∷ 217 ∷ 188 ∷ 106 ∷ 37 ∷ 138 ∷ 7 ∷ 210 ∷ 16 ∷ 168 ∷ 20 ∷ 213 ∷ 69
        ∷ 236 ∷ 167 ∷ 3 ∷ 33 ∷ 192 ∷ 232 ∷ 116 ∷ 152 ∷ 173 ∷ 166 ∷ 229 ∷ 199 ∷ 8 ∷ 183 ∷ 234 ∷ 209
        ∷ 98 ∷ 255 ∷ 207 ∷ 79 ∷ 186 ∷ 186 ∷ 30 ∷ 184 ∷ 38 ∷ 80 ∷ 89 ∷ 10 ∷ 135 ∷ 18 ∷ 43 ∷ 77 ∷ 149
        ∷ 254 ∷ 54 ∷ 189 ∷ 136 ∷ 178 ∷ 120 ∷ 129 ∷ 33 ∷ 102 ∷ 210 ∷ 110 ∷ 4 ∷ 110 ∷ 208 ∷ 165 ∷ 48
        ∷ 183 ∷ 238 ∷ 35 ∷ 46 ∷ 224 ∷ 242 ∷ [])

abbrev last : TestVector
last =
    create_test_vector 72057594037927935 72057594037927935
      (127 ∷ 255 ∷ 255 ∷ 255 ∷ 255 ∷ 255 ∷ 255 ∷ 255 ∷ 255 ∷ 255 ∷ 255 ∷ 255 ∷ 255 ∷ 255 ∷ 255 ∷ [])
      (49 ∷ 237 ∷ 38 ∷ 249 ∷ 10 ∷ 248 ∷ 209 ∷ 149 ∷ 17 ∷ 155 ∷ 157 ∷ 103 ∷ [])
      (127 ∷ 255 ∷ 255 ∷ 255 ∷ 255 ∷ 255 ∷ 255 ∷ 255 ∷ 255 ∷ 255 ∷ 255 ∷ 255 ∷ 255 ∷ 255 ∷ 255 ∷ 175
        ∷ 72 ∷ 13 ∷ 71 ∷ 121 ∷ 206 ∷ 12 ∷ 2 ∷ 181 ∷ 19 ∷ 126 ∷ 230 ∷ 166 ∷ 30 ∷ 2 ∷ 108 ∷ 4 ∷ 172
        ∷ 153 ∷ 156 ∷ 176 ∷ 201 ∷ 115 ∷ 25 ∷ 254 ∷ 206 ∷ 235 ∷ 37 ∷ 141 ∷ 88 ∷ 223 ∷ 35 ∷ 188 ∷ 225
        ∷ 73 ∷ 121 ∷ 229 ∷ 198 ∷ 122 ∷ 67 ∷ 23 ∷ 119 ∷ 179 ∷ 68 ∷ 152 ∷ 6 ∷ 46 ∷ 114 ∷ 249 ∷ 57
        ∷ 202 ∷ 66 ∷ 236 ∷ 132 ∷ 255 ∷ 188 ∷ 123 ∷ 80 ∷ 239 ∷ 249 ∷ 35 ∷ 245 ∷ 21 ∷ 162 ∷ 223 ∷ 118
        ∷ 12 ∷ [])

abbrev pub get_test_vectors : List TestVector
get_test_vectors = first ∷ second ∷ third ∷ fourth ∷ fifth ∷ sixth ∷ last ∷ []
