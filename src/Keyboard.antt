-- ===== src/Keyboard.antt =====
-- kernel/kbd.c and servers/kbd.c: the kernel's keyboard handler, and the keyboard server with its
-- own. Both have the same layout and the same code for the shift keys.
pub mod Laws
use leoman.Base.{ℕ, zero, suc, ◌+◌, Bool, true, false, not, ◌||◌, Option, none, some, List, [], ◌∷◌}
use leoman.Base.{◌==◌, if◌then◌else◌, bit_and, bit_or, get_elem?, Run, done, fault, ◌>>=◌}

abbrev pub key_lshift : ℕ
key_lshift = 0x2a

abbrev pub key_rshift : ℕ
key_rshift = 0x36

unfoldable pub released : ℕ → ℕ
released key = bit_or key 0x80

-- The two columns are MASK_NORMAL and MASK_SHIFT.
abbrev pub layout : List (ℕ × ℕ)
layout =
    (0, 0)
    ∷ (27, 27)
    ∷ (49, 33)
    ∷ (50, 64)
    ∷ (51, 35)
    ∷ (52, 36)
    ∷ (53, 37)
    ∷ (54, 94)
    ∷ (55, 38)
    ∷ (56, 42)
    ∷ (57, 40)
    ∷ (48, 41)
    ∷ (91, 123)
    ∷ (93, 125)
    ∷ (8, 8)
    ∷ (9, 9)
    ∷ (39, 34)
    ∷ (44, 60)
    ∷ (46, 62)
    ∷ (112, 80)
    ∷ (121, 89)
    ∷ (102, 70)
    ∷ (103, 71)
    ∷ (99, 67)
    ∷ (114, 82)
    ∷ (108, 76)
    ∷ (47, 63)
    ∷ (61, 43)
    ∷ (10, 10)
    ∷ (0, 0)
    ∷ (97, 65)
    ∷ (111, 79)
    ∷ (101, 69)
    ∷ (117, 85)
    ∷ (105, 73)
    ∷ (100, 68)
    ∷ (104, 72)
    ∷ (116, 84)
    ∷ (110, 78)
    ∷ (115, 83)
    ∷ (45, 95)
    ∷ (96, 126)
    ∷ (0, 0)
    ∷ (92, 124)
    ∷ (59, 58)
    ∷ (113, 81)
    ∷ (106, 74)
    ∷ (107, 75)
    ∷ (120, 88)
    ∷ (98, 66)
    ∷ (109, 77)
    ∷ (119, 87)
    ∷ (118, 86)
    ∷ (122, 90)
    ∷ (0, 0)
    ∷ (0, 0)
    ∷ (0, 0)
    ∷ (32, 32)
    ∷ (0, 0)
    ∷ (0, 0)
    ∷ []

-- `layout[scancode][mask]`; an index behind the array's end is undefined.
unfoldable pub layout_at : ℕ → Bool → Run ℕ
layout_at scancode shifted = elim (get_elem? layout scancode) [
  | none ↦ fault
  | some (normal, shift) ↦ done (if shifted then shift else normal)
]

-- The values that the reads of the ports give, in order: the status until its lowest bit is set, and
-- then the scan code. It is `none` while the status has not come.
unfoldable pub kbd_get_scancode : List ℕ → Option (ℕ × List ℕ)
kbd_get_scancode [] = none
kbd_get_scancode (c ∷ []) = none
kbd_get_scancode (c ∷ x ∷ reads) = elim (bit_and c 0x1 == 0) [
  | true ↦ kbd_get_scancode (x ∷ reads)
  | false ↦ some (x, reads)
]

-- `is_pressed[MASK_SHIFT]` after a scan code.
unfoldable pub update_shift : ℕ → Bool → Bool
unfolding released
update_shift scancode pressed =
    let pressed' = if (scancode == key_lshift) || (scancode == key_rshift) then true else pressed in
    if (scancode == released key_lshift) || (scancode == released key_rshift)
    then false
    else pressed'

-- The variables of kernel/kbd.c.
pub record Keys : Type 0 where
  pub key_buffer : ℕ
  pub shift_pressed : Bool

-- Whether the processes are listed, and the new state.
unfoldable pub kbd_handler : ℕ → Keys → Run (Bool × Keys)
unfolding update_shift layout_at
kbd_handler scancode k =
    let pressed = update_shift scancode k.shift_pressed in
    elim (bit_and scancode 0x80 == 0) [
      | false ↦ done (false, record k { shift_pressed = pressed })
      | true ↦ do
        key ← layout_at scancode pressed
        done (key == 112, record { key_buffer = key; shift_pressed = pressed })
    ]

-- The variables of servers/kbd.c.
pub record Server : Type 0 where
  pub last_scancode : ℕ
  pub key_pressed : Bool
  pub shift_pressed : Bool

unfoldable pub kbd_irq_handler : ℕ → Server → Server
unfolding update_shift
kbd_irq_handler scancode s =
    let pressed = update_shift scancode s.shift_pressed in
    if bit_and scancode 0x80 == 0
    then record { last_scancode = scancode; key_pressed = true; shift_pressed = pressed }
    else record s { shift_pressed = pressed }

-- The service of MSG_GETC: `none` while no key was pressed, for which it waits.
unfoldable pub serve_getc : Server → Run (Option ℕ × Server)
unfolding layout_at
serve_getc s =
    if s.key_pressed
    then (layout_at s.last_scancode false >>= λ reply.
        done (some reply, record s { key_pressed = false }))
    else done (none, s)
