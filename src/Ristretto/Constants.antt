-- ===== src/Ristretto/Constants.antt =====
-- src/ristretto/constants.rs: the points that nobody knows a discrete logarithm of.
use tari_crypto.Base.{List, [], ◌∷◌, Bytes, Run, done, ◌>>=◌, unwrap}
use tari_crypto.Ristretto.Dalek.{Dalek}

abbrev pub ristretto_nums_points_compressed : List Bytes
ristretto_nums_points_compressed =
    (144 ∷ 202 ∷ 17 ∷ 205 ∷ 108 ∷ 98 ∷ 39 ∷ 203 ∷ 10 ∷ 188 ∷ 57 ∷ 226 ∷ 113 ∷ 12 ∷ 68 ∷ 74 ∷ 230
      ∷ 97 ∷ 126 ∷ 168 ∷ 24 ∷ 152 ∷ 231 ∷ 22 ∷ 53 ∷ 63 ∷ 52 ∷ 16 ∷ 217 ∷ 101 ∷ 102 ∷ 5 ∷ [])
    ∷ (158 ∷ 163 ∷ 67 ∷ 196 ∷ 112 ∷ 228 ∷ 87 ∷ 33 ∷ 101 ∷ 243 ∷ 64 ∷ 56 ∷ 81 ∷ 223 ∷ 107 ∷ 32 ∷ 221
        ∷ 251 ∷ 206 ∷ 241 ∷ 171 ∷ 132 ∷ 207 ∷ 171 ∷ 15 ∷ 197 ∷ 139 ∷ 223 ∷ 124 ∷ 54 ∷ 254 ∷ 7 ∷ [])
    ∷ (48 ∷ 188 ∷ 62 ∷ 20 ∷ 154 ∷ 63 ∷ 125 ∷ 42 ∷ 172 ∷ 191 ∷ 231 ∷ 48 ∷ 225 ∷ 158 ∷ 154 ∷ 7 ∷ 119
        ∷ 59 ∷ 83 ∷ 83 ∷ 219 ∷ 98 ∷ 32 ∷ 99 ∷ 185 ∷ 44 ∷ 153 ∷ 54 ∷ 50 ∷ 173 ∷ 60 ∷ 7 ∷ [])
    ∷ (142 ∷ 16 ∷ 136 ∷ 206 ∷ 212 ∷ 150 ∷ 29 ∷ 136 ∷ 213 ∷ 177 ∷ 113 ∷ 189 ∷ 154 ∷ 52 ∷ 40 ∷ 68 ∷ 84
        ∷ 120 ∷ 154 ∷ 69 ∷ 95 ∷ 70 ∷ 236 ∷ 55 ∷ 82 ∷ 145 ∷ 49 ∷ 33 ∷ 36 ∷ 183 ∷ 30 ∷ 108 ∷ [])
    ∷ (112 ∷ 19 ∷ 255 ∷ 145 ∷ 136 ∷ 246 ∷ 135 ∷ 216 ∷ 133 ∷ 201 ∷ 90 ∷ 218 ∷ 110 ∷ 88 ∷ 11 ∷ 35
        ∷ 141 ∷ 231 ∷ 33 ∷ 12 ∷ 85 ∷ 193 ∷ 246 ∷ 36 ∷ 123 ∷ 31 ∷ 16 ∷ 101 ∷ 38 ∷ 8 ∷ 10 ∷ 85 ∷ [])
    ∷ (122 ∷ 234 ∷ 197 ∷ 53 ∷ 77 ∷ 120 ∷ 8 ∷ 171 ∷ 35 ∷ 80 ∷ 105 ∷ 62 ∷ 45 ∷ 2 ∷ 30 ∷ 42 ∷ 99 ∷ 188
        ∷ 47 ∷ 231 ∷ 194 ∷ 119 ∷ 210 ∷ 5 ∷ 107 ∷ 176 ∷ 108 ∷ 127 ∷ 141 ∷ 78 ∷ 6 ∷ 81 ∷ [])
    ∷ (228 ∷ 224 ∷ 63 ∷ 227 ∷ 33 ∷ 214 ∷ 87 ∷ 20 ∷ 172 ∷ 223 ∷ 193 ∷ 247 ∷ 88 ∷ 37 ∷ 111 ∷ 121 ∷ 204
        ∷ 69 ∷ 49 ∷ 213 ∷ 30 ∷ 143 ∷ 121 ∷ 244 ∷ 15 ∷ 194 ∷ 105 ∷ 198 ∷ 196 ∷ 117 ∷ 160 ∷ 65 ∷ [])
    ∷ (136 ∷ 214 ∷ 134 ∷ 144 ∷ 253 ∷ 111 ∷ 238 ∷ 89 ∷ 110 ∷ 128 ∷ 92 ∷ 250 ∷ 34 ∷ 30 ∷ 126 ∷ 40
        ∷ 119 ∷ 21 ∷ 166 ∷ 201 ∷ 46 ∷ 148 ∷ 100 ∷ 255 ∷ 196 ∷ 32 ∷ 172 ∷ 183 ∷ 12 ∷ 236 ∷ 51 ∷ 27
        ∷ [])
    ∷ (204 ∷ 102 ∷ 24 ∷ 189 ∷ 15 ∷ 12 ∷ 192 ∷ 35 ∷ 132 ∷ 29 ∷ 173 ∷ 74 ∷ 19 ∷ 204 ∷ 46 ∷ 55 ∷ 166
        ∷ 35 ∷ 14 ∷ 36 ∷ 48 ∷ 80 ∷ 214 ∷ 220 ∷ 196 ∷ 201 ∷ 49 ∷ 208 ∷ 70 ∷ 224 ∷ 234 ∷ 3 ∷ [])
    ∷ (96 ∷ 230 ∷ 255 ∷ 101 ∷ 87 ∷ 7 ∷ 198 ∷ 66 ∷ 73 ∷ 210 ∷ 250 ∷ 146 ∷ 78 ∷ 49 ∷ 146 ∷ 182 ∷ 149
        ∷ 220 ∷ 88 ∷ 44 ∷ 180 ∷ 246 ∷ 214 ∷ 140 ∷ 180 ∷ 43 ∷ 155 ∷ 49 ∷ 24 ∷ 147 ∷ 237 ∷ 64 ∷ [])
    ∷ []

module _ (dk : Dalek) where
  -- The loop that fills the static array: `unwrap` panics on bytes that are no point.
  unfoldable pub decompress_all : List Bytes → Run (List dk.Point)
  decompress_all [] = done []
  decompress_all (c ∷ cs) = do p ← unwrap (dk.decompress c); ps ← decompress_all cs; done (p ∷ ps)

  unfoldable pub ristretto_nums_points : Run (List dk.Point)
  unfolding decompress_all
  ristretto_nums_points = decompress_all ristretto_nums_points_compressed
