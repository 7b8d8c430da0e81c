-- ===== src/Wire/Utf8.antt =====
-- `String::from_utf8` of Rust's standard library, as a test: a Rust `String` is a list of bytes that
-- passes it. The ranges are those of well-formed UTF-8 (Unicode, table 3-7).
use lan_mouse_pro.Common.{
  ℕ, zero, suc, Bool, false, ◌&&◌, leb, if◌then◌else◌, Option, none, some, List, [], ◌∷◌,
}

-- How many bytes of the current character are still to come, and the range of the next one.
pub record Utf8State : Type 0 where
  pub pending : ℕ
  pub low : ℕ
  pub high : ℕ

abbrev within : ℕ → ℕ → ℕ → Bool
within lo hi b = leb lo b && leb b hi

abbrev pub utf8_start : Utf8State
utf8_start = record { pending = 0; low = 0x80; high = 0xbf }

utf8_lead : ℕ → Option Utf8State
utf8_lead b =
    if within 0x00 0x7f b
    then some utf8_start
    else if within 0xc2 0xdf b
    then some (record { pending = 1; low = 0x80; high = 0xbf })
    else if within 0xe0 0xe0 b
    then some (record { pending = 2; low = 0xa0; high = 0xbf })
    else if within 0xed 0xed b
    then some (record { pending = 2; low = 0x80; high = 0x9f })
    else if within 0xe1 0xef b
    then some (record { pending = 2; low = 0x80; high = 0xbf })
    else if within 0xf0 0xf0 b
    then some (record { pending = 3; low = 0x90; high = 0xbf })
    else if within 0xf1 0xf3 b
    then some (record { pending = 3; low = 0x80; high = 0xbf })
    else if within 0xf4 0xf4 b
    then some (record { pending = 3; low = 0x80; high = 0x8f })
    else none

utf8_next : ℕ → Utf8State → ℕ → Option Utf8State
unfolding utf8_lead
utf8_next zero s b = utf8_lead b
utf8_next (suc n) s b =
    if within s.low s.high b then some (record { pending = n; low = 0x80; high = 0xbf }) else none

utf8_run : Utf8State → List ℕ → Bool
unfolding utf8_next
utf8_run s [] = leb s.pending 0
utf8_run s (b ∷ bs) = elim (utf8_next s.pending s b) [ none ↦ false | some s' ↦ utf8_run s' bs ]

unfoldable pub is_utf8 : List ℕ → Bool
unfolding utf8_run
is_utf8 bs = utf8_run utf8_start bs
