-- ===== src/Base/Runes.antt =====
-- Go's `strings` on texts of code points: TrimSpace, the length in bytes, and ToLower on ASCII.
use tgcontrib.Base.{ℕ, ◌+◌, Bool, ◌&&◌, ◌||◌, List, [], ◌∷◌, ltb, leb, ◌==◌, if◌then◌else◌}

-- A text by its code points.
abbrev pub Runes : Type 0
Runes = List ℕ

-- `unicode.IsSpace`
abbrev pub is_space_rune : ℕ → Bool
is_space_rune c =
    (leb 9 c && leb c 13)
    || c == 32
    || c == 0x85
    || c == 0xA0
    || c == 0x1680
    || (leb 0x2000 c && leb c 0x200A)
    || c == 0x2028
    || c == 0x2029
    || c == 0x202F
    || c == 0x205F
    || c == 0x3000

trim_front : Runes → Runes
trim_front [] = []
trim_front (c ∷ s) = let rest = trim_front s in if is_space_rune c then rest else c ∷ s

unless_blank : ℕ → Runes → Runes
unless_blank c [] = if is_space_rune c then [] else c ∷ []
unless_blank c (d ∷ s) = c ∷ d ∷ s

trim_back : Runes → Runes
unfolding unless_blank
trim_back [] = []
trim_back (c ∷ s) = unless_blank c (trim_back s)

-- `TrimSpace`
unfoldable pub trim_space : Runes → Runes
unfolding trim_front trim_back
trim_space s = trim_back (trim_front s)

-- the bytes of a code point in UTF-8
abbrev pub rune_length : ℕ → ℕ
rune_length c = if ltb c 0x80 then 1 else if ltb c 0x800 then 2 else if ltb c 0x10000 then 3 else 4

-- `len`
unfoldable pub byte_length : Runes → ℕ
byte_length [] = 0
byte_length (c ∷ s) = rune_length c + byte_length s

-- `ToLower`, on the ASCII letters
unfoldable pub to_lower : Runes → Runes
to_lower [] = []
to_lower (c ∷ s) = (if leb b'A' c && leb c b'Z' then c + 32 else c) ∷ to_lower s
