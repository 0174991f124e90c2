-- ===== src/Mysql/Handshake/Collations.antt =====
-- mysql/collations.go: the collations with their numbers in the protocol.
use dbrwproxy.Prelude.{ℕ, Bytes, codes, List, [], ◌∷◌, Option, none, some, bytes_eq, if◌then◌else◌}

-- `defaultCollation`
abbrev pub default_collation : Bytes
default_collation = codes "utf8mb4_general_ci"

-- `collations`
unfoldable pub collations : List (Bytes × ℕ)
collations =
    (codes "big5_chinese_ci", 1)
    ∷ (codes "latin2_czech_cs", 2)
    ∷ (codes "dec8_swedish_ci", 3)
    ∷ (codes "cp850_general_ci", 4)
    ∷ (codes "latin1_german1_ci", 5)
    ∷ (codes "hp8_english_ci", 6)
    ∷ (codes "koi8r_general_ci", 7)
    ∷ (codes "latin1_swedish_ci", 8)
    ∷ (codes "latin2_general_ci", 9)
    ∷ (codes "swe7_swedish_ci", 10)
    ∷ (codes "ascii_general_ci", 11)
    ∷ (codes "ujis_japanese_ci", 12)
    ∷ (codes "sjis_japanese_ci", 13)
    ∷ (codes "cp1251_bulgarian_ci", 14)
    ∷ (codes "latin1_danish_ci", 15)
    ∷ (codes "hebrew_general_ci", 16)
    ∷ (codes "tis620_thai_ci", 18)
    ∷ (codes "euckr_korean_ci", 19)
    ∷ (codes "latin7_estonian_cs", 20)
    ∷ (codes "latin2_hungarian_ci", 21)
    ∷ (codes "koi8u_general_ci", 22)
    ∷ (codes "cp1251_ukrainian_ci", 23)
    ∷ (codes "gb2312_chinese_ci", 24)
    ∷ (codes "greek_general_ci", 25)
    ∷ (codes "cp1250_general_ci", 26)
    ∷ (codes "latin2_croatian_ci", 27)
    ∷ (codes "gbk_chinese_ci", 28)
    ∷ (codes "cp1257_lithuanian_ci", 29)
    ∷ (codes "latin5_turkish_ci", 30)
    ∷ (codes "latin1_german2_ci", 31)
    ∷ (codes "armscii8_general_ci", 32)
    ∷ (codes "utf8_general_ci", 33)
    ∷ (codes "cp1250_czech_cs", 34)
    ∷ (codes "cp866_general_ci", 36)
    ∷ (codes "keybcs2_general_ci", 37)
    ∷ (codes "macce_general_ci", 38)
    ∷ (codes "macroman_general_ci", 39)
    ∷ (codes "cp852_general_ci", 40)
    ∷ (codes "latin7_general_ci", 41)
    ∷ (codes "latin7_general_cs", 42)
    ∷ (codes "macce_bin", 43)
    ∷ (codes "cp1250_croatian_ci", 44)
    ∷ (codes "utf8mb4_general_ci", 45)
    ∷ (codes "utf8mb4_bin", 46)
    ∷ (codes "latin1_bin", 47)
    ∷ (codes "latin1_general_ci", 48)
    ∷ (codes "latin1_general_cs", 49)
    ∷ (codes "cp1251_bin", 50)
    ∷ (codes "cp1251_general_ci", 51)
    ∷ (codes "cp1251_general_cs", 52)
    ∷ (codes "macroman_bin", 53)
    ∷ (codes "cp1256_general_ci", 57)
    ∷ (codes "cp1257_bin", 58)
    ∷ (codes "cp1257_general_ci", 59)
    ∷ (codes "binary", 63)
    ∷ (codes "armscii8_bin", 64)
    ∷ (codes "ascii_bin", 65)
    ∷ (codes "cp1250_bin", 66)
    ∷ (codes "cp1256_bin", 67)
    ∷ (codes "cp866_bin", 68)
    ∷ (codes "dec8_bin", 69)
    ∷ (codes "greek_bin", 70)
    ∷ (codes "hebrew_bin", 71)
    ∷ (codes "hp8_bin", 72)
    ∷ (codes "keybcs2_bin", 73)
    ∷ (codes "koi8r_bin", 74)
    ∷ (codes "koi8u_bin", 75)
    ∷ (codes "utf8_tolower_ci", 76)
    ∷ (codes "latin2_bin", 77)
    ∷ (codes "latin5_bin", 78)
    ∷ (codes "latin7_bin", 79)
    ∷ (codes "cp850_bin", 80)
    ∷ (codes "cp852_bin", 81)
    ∷ (codes "swe7_bin", 82)
    ∷ (codes "utf8_bin", 83)
    ∷ (codes "big5_bin", 84)
    ∷ (codes "euckr_bin", 85)
    ∷ (codes "gb2312_bin", 86)
    ∷ (codes "gbk_bin", 87)
    ∷ (codes "sjis_bin", 88)
    ∷ (codes "tis620_bin", 89)
    ∷ (codes "ujis_bin", 91)
    ∷ (codes "geostd8_general_ci", 92)
    ∷ (codes "geostd8_bin", 93)
    ∷ (codes "latin1_spanish_ci", 94)
    ∷ (codes "cp932_japanese_ci", 95)
    ∷ (codes "cp932_bin", 96)
    ∷ (codes "eucjpms_japanese_ci", 97)
    ∷ (codes "eucjpms_bin", 98)
    ∷ (codes "cp1250_polish_ci", 99)
    ∷ (codes "utf8_unicode_ci", 192)
    ∷ (codes "utf8_icelandic_ci", 193)
    ∷ (codes "utf8_latvian_ci", 194)
    ∷ (codes "utf8_romanian_ci", 195)
    ∷ (codes "utf8_slovenian_ci", 196)
    ∷ (codes "utf8_polish_ci", 197)
    ∷ (codes "utf8_estonian_ci", 198)
    ∷ (codes "utf8_spanish_ci", 199)
    ∷ (codes "utf8_swedish_ci", 200)
    ∷ (codes "utf8_turkish_ci", 201)
    ∷ (codes "utf8_czech_ci", 202)
    ∷ (codes "utf8_danish_ci", 203)
    ∷ (codes "utf8_lithuanian_ci", 204)
    ∷ (codes "utf8_slovak_ci", 205)
    ∷ (codes "utf8_spanish2_ci", 206)
    ∷ (codes "utf8_roman_ci", 207)
    ∷ (codes "utf8_persian_ci", 208)
    ∷ (codes "utf8_esperanto_ci", 209)
    ∷ (codes "utf8_hungarian_ci", 210)
    ∷ (codes "utf8_sinhala_ci", 211)
    ∷ (codes "utf8_german2_ci", 212)
    ∷ (codes "utf8_croatian_ci", 213)
    ∷ (codes "utf8_unicode_520_ci", 214)
    ∷ (codes "utf8_vietnamese_ci", 215)
    ∷ (codes "utf8_general_mysql500_ci", 223)
    ∷ (codes "utf8mb4_unicode_ci", 224)
    ∷ (codes "utf8mb4_icelandic_ci", 225)
    ∷ (codes "utf8mb4_latvian_ci", 226)
    ∷ (codes "utf8mb4_romanian_ci", 227)
    ∷ (codes "utf8mb4_slovenian_ci", 228)
    ∷ (codes "utf8mb4_polish_ci", 229)
    ∷ (codes "utf8mb4_estonian_ci", 230)
    ∷ (codes "utf8mb4_spanish_ci", 231)
    ∷ (codes "utf8mb4_swedish_ci", 232)
    ∷ (codes "utf8mb4_turkish_ci", 233)
    ∷ (codes "utf8mb4_czech_ci", 234)
    ∷ (codes "utf8mb4_danish_ci", 235)
    ∷ (codes "utf8mb4_lithuanian_ci", 236)
    ∷ (codes "utf8mb4_slovak_ci", 237)
    ∷ (codes "utf8mb4_spanish2_ci", 238)
    ∷ (codes "utf8mb4_roman_ci", 239)
    ∷ (codes "utf8mb4_persian_ci", 240)
    ∷ (codes "utf8mb4_esperanto_ci", 241)
    ∷ (codes "utf8mb4_hungarian_ci", 242)
    ∷ (codes "utf8mb4_sinhala_ci", 243)
    ∷ (codes "utf8mb4_german2_ci", 244)
    ∷ (codes "utf8mb4_croatian_ci", 245)
    ∷ (codes "utf8mb4_unicode_520_ci", 246)
    ∷ (codes "utf8mb4_vietnamese_ci", 247)
    ∷ (codes "gb18030_chinese_ci", 248)
    ∷ (codes "gb18030_bin", 249)
    ∷ (codes "gb18030_unicode_520_ci", 250)
    ∷ (codes "utf8mb4_0900_ai_ci", 255)
    ∷ []

-- collations[name]
unfoldable pub collation_id : Bytes → List (Bytes × ℕ) → Option ℕ
collation_id name [] = none
collation_id name ((key, id) ∷ rest) = if bytes_eq name key then some id else collation_id name rest
