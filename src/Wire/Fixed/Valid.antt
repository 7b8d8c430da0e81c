-- ===== src/Wire/Fixed/Valid.antt =====
-- The ranges of the fixed-size events' fields: a u8, a u32 or 64 bits, and 8 bytes for an array.
use lan_mouse_pro.Common.{ℕ, ◌^◌, ◌<◌, ◌≡◌, List, length, All}
use lan_mouse_pro.Wire.Bytes.{IsByte}
use lan_mouse_pro.Wire.Types.{PointerEvent, KeyboardEvent, InputEvent}

abbrev pub IsU8 : ℕ → Type 0
IsU8 n = n < 2 ^ 8

abbrev pub IsU32 : ℕ → Type 0
IsU32 n = n < 2 ^ 32

abbrev pub IsU64 : ℕ → Type 0
IsU64 n = n < 2 ^ 64

abbrev pub IsInput : InputEvent → Type 0
IsInput (InputEvent.pointer (PointerEvent.motion time dx dy)) = IsU32 time × IsU64 dx × IsU64 dy
IsInput (InputEvent.pointer (PointerEvent.button time button state)) =
    IsU32 time × IsU32 button × IsU32 state
IsInput (InputEvent.pointer (PointerEvent.axis time axis value)) =
    IsU32 time × IsU8 axis × IsU64 value
IsInput (InputEvent.pointer (PointerEvent.axis_discrete120 axis value)) = IsU8 axis × IsU32 value
IsInput (InputEvent.keyboard (KeyboardEvent.key time key state)) =
    IsU32 time × IsU32 key × IsU8 state
IsInput (InputEvent.keyboard (KeyboardEvent.modifiers depressed latched locked group)) =
    IsU32 depressed × IsU32 latched × IsU32 locked × IsU32 group

-- `[u8; 8]`.
abbrev pub IsArray8 : List ℕ → Type 0
IsArray8 bs = (length bs ≡ 8) × All IsByte bs
