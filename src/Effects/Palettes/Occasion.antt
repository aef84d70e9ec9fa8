-- ===== src/Effects/Palettes/Occasion.antt =====
-- led_orchestra_effects.cpp: the colours of the palettes neon-party to independence.
use led_orchestra.Base.{List, [], ◌∷◌}
use led_orchestra.Color.{Crgb, rgb}

abbrev pub neon_party_colors : List Crgb
neon_party_colors =
    rgb 8 0 24
    ∷ rgb 36 0 80
    ∷ rgb 85 0 155
    ∷ rgb 155 0 210
    ∷ rgb 230 0 220
    ∷ rgb 255 18 160
    ∷ rgb 255 75 70
    ∷ rgb 255 150 20
    ∷ rgb 250 230 0
    ∷ rgb 150 255 0
    ∷ rgb 0 245 90
    ∷ rgb 0 220 200
    ∷ rgb 0 145 255
    ∷ rgb 0 70 255
    ∷ rgb 70 0 210
    ∷ rgb 16 0 60
    ∷ []

abbrev pub gold_score_colors : List Crgb
gold_score_colors =
    rgb 0 0 0
    ∷ rgb 18 10 0
    ∷ rgb 45 26 0
    ∷ rgb 86 54 0
    ∷ rgb 130 86 8
    ∷ rgb 178 122 18
    ∷ rgb 220 165 35
    ∷ rgb 255 205 68
    ∷ rgb 255 235 118
    ∷ rgb 255 250 190
    ∷ rgb 255 255 235
    ∷ rgb 255 230 105
    ∷ rgb 235 175 38
    ∷ rgb 160 100 14
    ∷ rgb 65 36 0
    ∷ rgb 8 4 0
    ∷ []

abbrev pub maintenance_colors : List Crgb
maintenance_colors =
    rgb 0 0 0
    ∷ rgb 0 0 40
    ∷ rgb 0 0 105
    ∷ rgb 0 35 190
    ∷ rgb 0 120 255
    ∷ rgb 80 190 255
    ∷ rgb 210 245 255
    ∷ rgb 255 255 255
    ∷ rgb 255 255 255
    ∷ rgb 210 245 255
    ∷ rgb 80 190 255
    ∷ rgb 0 120 255
    ∷ rgb 0 35 190
    ∷ rgb 0 0 105
    ∷ rgb 0 0 40
    ∷ rgb 0 0 0
    ∷ []

abbrev pub seafoam_surf_colors : List Crgb
seafoam_surf_colors =
    rgb 0 3 12
    ∷ rgb 0 10 26
    ∷ rgb 0 24 52
    ∷ rgb 0 48 82
    ∷ rgb 0 82 118
    ∷ rgb 0 118 145
    ∷ rgb 0 156 166
    ∷ rgb 24 190 180
    ∷ rgb 76 215 196
    ∷ rgb 130 230 212
    ∷ rgb 188 240 224
    ∷ rgb 225 248 236
    ∷ rgb 246 252 246
    ∷ rgb 255 255 255
    ∷ rgb 196 235 236
    ∷ rgb 40 120 148
    ∷ []

abbrev pub champagne_rose_colors : List Crgb
champagne_rose_colors =
    rgb 10 4 2
    ∷ rgb 26 12 6
    ∷ rgb 48 24 12
    ∷ rgb 78 40 20
    ∷ rgb 112 60 32
    ∷ rgb 150 84 48
    ∷ rgb 188 112 68
    ∷ rgb 220 144 92
    ∷ rgb 242 178 122
    ∷ rgb 252 206 154
    ∷ rgb 255 226 184
    ∷ rgb 255 238 206
    ∷ rgb 255 246 224
    ∷ rgb 255 244 236
    ∷ rgb 244 214 196
    ∷ rgb 186 126 100
    ∷ []

abbrev pub independence_colors : List Crgb
independence_colors =
    rgb 10 20 90
    ∷ rgb 18 36 155
    ∷ rgb 35 70 220
    ∷ rgb 210 235 255
    ∷ rgb 255 255 255
    ∷ rgb 255 255 255
    ∷ rgb 255 220 220
    ∷ rgb 210 20 38
    ∷ rgb 255 38 55
    ∷ rgb 210 20 38
    ∷ rgb 255 220 220
    ∷ rgb 255 255 255
    ∷ rgb 210 235 255
    ∷ rgb 35 70 220
    ∷ rgb 18 36 155
    ∷ rgb 10 20 90
    ∷ []
