-- ===== src/Keyboard/Laws.antt =====
-- kernel/kbd.c and servers/kbd.c: the key that a scan code gives.
use leoman.Base.{
  ℕ, ◌/◌, ◌%◌, ◌<◌, ◌≤◌, ◌≡◌, refl, ap, ◌∙◌, arith, true, false, some, List, [], ◌∷◌, bit_and, ◌==◌,
  get_elem?, done, Option-at_some,
}
use leoman.Base.Bits.{bit}
use leoman.Base.Bits.Masks.{bit_and-pow}
use leoman.Keyboard.{layout, layout_at, Server, kbd_irq_handler, serve_getc, update_shift}

-- The handler's runs for a list of scan codes.
unfoldable pub handle_all : List ℕ → Server → Server
unfolding kbd_irq_handler
handle_all [] s = s
handle_all (c ∷ cs) s = handle_all cs (kbd_irq_handler c s)

abbrev pub AreBreaks : List ℕ → Type 0
AreBreaks [] = Unit {0}
AreBreaks (c ∷ cs) = ((128 ≤ c) × (c < 256)) × AreBreaks cs

high_bit : (c : ℕ) → bit c 7 ≡ c / 128 % 2
high_bit c = omega arith

make_lem : (c : ℕ) → c < 128 → (bit_and c 0x80 == 0) ≡ true
make_lem c l = ground (arith, bit_and-pow c 7, high_bit c)

break_lem : (c : ℕ) → 128 ≤ c → c < 256 → (bit_and c 0x80 == 0) ≡ false
break_lem c g l = ground (arith, bit_and-pow c 7, high_bit c)

handle_break :
    (c : ℕ) (s : Server)
    → 128 ≤ c
    → c < 256
    → kbd_irq_handler c s ≡ record s { shift_pressed = update_shift c s.shift_pressed }
unfolding kbd_irq_handler
handle_break c s g l = rw (break_lem c g l) refl

handle_make :
    (c : ℕ) (s : Server)
    → c < 128
    → kbd_irq_handler c s ≡ record {
      last_scancode = c;
      key_pressed = true;
      shift_pressed = update_shift c s.shift_pressed;
    }
unfolding kbd_irq_handler
handle_make c s l = rw (make_lem c l) refl

-- The code that waits is not touched by breaks.
handle_breaks :
    (cs : List ℕ) (s : Server)
    → AreBreaks cs
    → ((handle_all cs s).last_scancode ≡ s.last_scancode)
      × ((handle_all cs s).key_pressed ≡ s.key_pressed)
unfolding handle_all
handle_breaks [] s breaks = (refl, refl)
handle_breaks (c ∷ cs) s ((g, l), breaks) =
    let same = handle_break c s g l in
    let (code, pressed) = handle_breaks cs (kbd_irq_handler c s) breaks in
    (
      code ∙ ap (λ (t : Server). t.last_scancode) same,
      pressed ∙ ap (λ (t : Server). t.key_pressed) same,
    )

layout_at-normal :
    (c : ℕ) (key : ℕ × ℕ) → get_elem? layout c ≡ some key → layout_at c false ≡ done key.0
unfolding layout_at
layout_at-normal c key at = Option-at_some (get_elem? layout c) _ _ key at

serve_getc-pressed :
    (s : Server) (key : ℕ × ℕ)
    → s.key_pressed ≡ true
    → get_elem? layout s.last_scancode ≡ some key
    → serve_getc s ≡ done (some key.0, record s { key_pressed = false })
unfolding serve_getc
serve_getc-pressed s key pressed at = simp (pressed, layout_at-normal s.last_scancode key at)

-- After a key of the layout was pressed and any codes of released keys followed, the keyboard
-- server answers a request with the key's unshifted character, whether a shift key is down or
-- not, and then waits for the next key.
pub serve_getc_lem :
    (c : ℕ) (cs : List ℕ) (s : Server) (key : ℕ × ℕ)
    → c < 128
    → get_elem? layout c ≡ some key
    → AreBreaks cs
    → let s' = handle_all cs (kbd_irq_handler c s) in
      serve_getc s' ≡ done (some key.0, record s' { key_pressed = false })
serve_getc_lem c cs s key l at breaks =
    let made = handle_make c s l in
    let (code, pressed) = handle_breaks cs (kbd_irq_handler c s) breaks in
    serve_getc-pressed _ key (pressed ∙ ap (λ (t : Server). t.key_pressed) made)
      (ap (get_elem? layout) (code ∙ ap (λ (t : Server). t.last_scancode) made) ∙ at)
