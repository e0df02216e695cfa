-- ===== src/KeyboardDriver/Hid.antt =====
-- src/bin/daemon/keyboardDriver.hpp: the table from USB HID usages to Linux key codes. `unk` is
-- KEY_UNKNOWN, 240 in linux/input-event-codes.h.
use glogi_k.Prelude.{ℕ, List, [], ◌∷◌, get_or}

pub hid_keyboard : List ℕ
hid_keyboard =
    0 ∷ 0 ∷ 0 ∷ 0 ∷ 30 ∷ 48 ∷ 46 ∷ 32 ∷ 18 ∷ 33 ∷ 34 ∷ 35 ∷ 23 ∷ 36 ∷ 37 ∷ 38 ∷ 50 ∷ 49 ∷ 24 ∷ 25
    ∷ 16 ∷ 19 ∷ 31 ∷ 20 ∷ 22 ∷ 47 ∷ 17 ∷ 45 ∷ 21 ∷ 44 ∷ 2 ∷ 3 ∷ 4 ∷ 5 ∷ 6 ∷ 7 ∷ 8 ∷ 9 ∷ 10 ∷ 11 ∷ 28
    ∷ 1 ∷ 14 ∷ 15 ∷ 57 ∷ 12 ∷ 13 ∷ 26 ∷ 27 ∷ 43 ∷ 43 ∷ 39 ∷ 40 ∷ 41 ∷ 51 ∷ 52 ∷ 53 ∷ 58 ∷ 59 ∷ 60
    ∷ 61 ∷ 62 ∷ 63 ∷ 64 ∷ 65 ∷ 66 ∷ 67 ∷ 68 ∷ 87 ∷ 88 ∷ 99 ∷ 70 ∷ 119 ∷ 110 ∷ 102 ∷ 104 ∷ 111 ∷ 107
    ∷ 109 ∷ 106 ∷ 105 ∷ 108 ∷ 103 ∷ 69 ∷ 98 ∷ 55 ∷ 74 ∷ 78 ∷ 96 ∷ 79 ∷ 80 ∷ 81 ∷ 75 ∷ 76 ∷ 77 ∷ 71
    ∷ 72 ∷ 73 ∷ 82 ∷ 83 ∷ 86 ∷ 127 ∷ 116 ∷ 117 ∷ 183 ∷ 184 ∷ 185 ∷ 186 ∷ 187 ∷ 188 ∷ 189 ∷ 190 ∷ 191
    ∷ 192 ∷ 193 ∷ 194 ∷ 134 ∷ 138 ∷ 130 ∷ 132 ∷ 128 ∷ 129 ∷ 131 ∷ 137 ∷ 133 ∷ 135 ∷ 136 ∷ 113 ∷ 115
    ∷ 114 ∷ 240 ∷ 240 ∷ 240 ∷ 121 ∷ 240 ∷ 89 ∷ 93 ∷ 124 ∷ 92 ∷ 94 ∷ 95 ∷ 240 ∷ 240 ∷ 240 ∷ 122 ∷ 123
    ∷ 90 ∷ 91 ∷ 85 ∷ 240 ∷ 240 ∷ 240 ∷ 240 ∷ 240 ∷ 240 ∷ 240 ∷ 111 ∷ 240 ∷ 240 ∷ 240 ∷ 240 ∷ 240
    ∷ 240 ∷ 240 ∷ 240 ∷ 240 ∷ 240 ∷ 240 ∷ 240 ∷ 240 ∷ 240 ∷ 240 ∷ 240 ∷ 240 ∷ 240 ∷ 240 ∷ 240 ∷ 240
    ∷ 240 ∷ 240 ∷ 240 ∷ 240 ∷ 179 ∷ 180 ∷ 240 ∷ 240 ∷ 240 ∷ 240 ∷ 240 ∷ 240 ∷ 240 ∷ 240 ∷ 240 ∷ 240
    ∷ 240 ∷ 240 ∷ 240 ∷ 240 ∷ 240 ∷ 240 ∷ 240 ∷ 240 ∷ 240 ∷ 240 ∷ 240 ∷ 240 ∷ 240 ∷ 240 ∷ 240 ∷ 240
    ∷ 240 ∷ 240 ∷ 240 ∷ 240 ∷ 240 ∷ 240 ∷ 111 ∷ 240 ∷ 240 ∷ 240 ∷ 240 ∷ 240 ∷ 240 ∷ 240 ∷ 29 ∷ 42
    ∷ 56 ∷ 125 ∷ 97 ∷ 54 ∷ 100 ∷ 126 ∷ 164 ∷ 166 ∷ 165 ∷ 163 ∷ 161 ∷ 115 ∷ 114 ∷ 113 ∷ 150 ∷ 158
    ∷ 159 ∷ 128 ∷ 136 ∷ 177 ∷ 178 ∷ 176 ∷ 142 ∷ 152 ∷ 173 ∷ 140 ∷ 240 ∷ 240 ∷ 240 ∷ 240 ∷ []

-- hidKeyboard[ b ], for a byte `b`
unfoldable pub hid_code : ℕ → ℕ
unfolding hid_keyboard
hid_code b = get_or hid_keyboard b 0
