-- ===== src/Effects/Palettes/Nature.antt =====
-- led_orchestra_effects.cpp: the colours of the palettes aurora to ice.
use led_orchestra.Base.{List, [], ◌∷◌}
use led_orchestra.Color.{Crgb, rgb}

abbrev pub aurora_colors : List Crgb
aurora_colors =
    rgb 0 12 24
    ∷ rgb 0 40 60
    ∷ rgb 0 80 90
    ∷ rgb 0 130 110
    ∷ rgb 10 170 120
    ∷ rgb 40 200 120
    ∷ rgb 80 220 110
    ∷ rgb 140 230 120
    ∷ rgb 90 210 150
    ∷ rgb 40 180 170
    ∷ rgb 20 130 180
    ∷ rgb 20 80 160
    ∷ rgb 30 40 130
    ∷ rgb 20 20 80
    ∷ rgb 8 10 40
    ∷ rgb 0 4 18
    ∷ []

abbrev pub ember_colors : List Crgb
ember_colors =
    rgb 0 0 0
    ∷ rgb 24 0 0
    ∷ rgb 64 4 0
    ∷ rgb 110 12 0
    ∷ rgb 160 28 0
    ∷ rgb 200 50 0
    ∷ rgb 230 80 4
    ∷ rgb 245 120 12
    ∷ rgb 255 160 30
    ∷ rgb 255 190 60
    ∷ rgb 255 210 100
    ∷ rgb 255 225 150
    ∷ rgb 200 160 90
    ∷ rgb 120 80 30
    ∷ rgb 50 24 6
    ∷ rgb 12 4 0
    ∷ []

abbrev pub ocean_colors : List Crgb
ocean_colors =
    rgb 0 2 12
    ∷ rgb 0 8 28
    ∷ rgb 0 18 48
    ∷ rgb 0 36 72
    ∷ rgb 0 58 95
    ∷ rgb 0 84 118
    ∷ rgb 0 110 132
    ∷ rgb 0 140 145
    ∷ rgb 15 165 150
    ∷ rgb 40 185 155
    ∷ rgb 80 205 170
    ∷ rgb 130 220 190
    ∷ rgb 185 235 215
    ∷ rgb 235 250 235
    ∷ rgb 90 190 210
    ∷ rgb 0 42 86
    ∷ []

abbrev pub coral_colors : List Crgb
coral_colors =
    rgb 8 3 12
    ∷ rgb 26 8 28
    ∷ rgb 58 14 45
    ∷ rgb 100 22 58
    ∷ rgb 145 36 68
    ∷ rgb 190 58 76
    ∷ rgb 230 88 78
    ∷ rgb 255 122 90
    ∷ rgb 255 160 115
    ∷ rgb 255 196 145
    ∷ rgb 250 220 170
    ∷ rgb 160 215 185
    ∷ rgb 78 190 185
    ∷ rgb 28 130 160
    ∷ rgb 18 70 120
    ∷ rgb 8 20 54
    ∷ []

abbrev pub jungle_colors : List Crgb
jungle_colors =
    rgb 0 8 2
    ∷ rgb 0 18 5
    ∷ rgb 0 35 9
    ∷ rgb 0 58 16
    ∷ rgb 6 84 24
    ∷ rgb 16 112 34
    ∷ rgb 34 140 46
    ∷ rgb 58 165 62
    ∷ rgb 90 188 72
    ∷ rgb 130 205 80
    ∷ rgb 175 220 88
    ∷ rgb 220 225 92
    ∷ rgb 245 205 80
    ∷ rgb 155 120 36
    ∷ rgb 55 62 18
    ∷ rgb 0 18 5
    ∷ []

abbrev pub ice_colors : List Crgb
ice_colors =
    rgb 0 4 18
    ∷ rgb 0 12 38
    ∷ rgb 0 26 64
    ∷ rgb 0 52 96
    ∷ rgb 0 86 128
    ∷ rgb 0 122 158
    ∷ rgb 34 158 190
    ∷ rgb 82 190 215
    ∷ rgb 135 220 235
    ∷ rgb 190 242 250
    ∷ rgb 240 255 255
    ∷ rgb 215 245 255
    ∷ rgb 160 220 248
    ∷ rgb 85 165 225
    ∷ rgb 28 86 170
    ∷ rgb 0 24 74
    ∷ []
