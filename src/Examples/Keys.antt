-- ===== src/Examples/Keys.antt =====
-- The key with scan code 30 pressed and released, with a shift key down.
use leoman.Base.{◌≡◌, refl, arith, true, false, some, [], ◌∷◌, done}
use leoman.Keyboard.{Server, kbd_irq_handler, serve_getc}
use leoman.Keyboard.Laws.{handle_all, serve_getc_lem}

abbrev shifted : Server
shifted = record { last_scancode = 0; key_pressed = false; shift_pressed = true }

serve_getc_example :
    let s' = handle_all (158 ∷ []) (kbd_irq_handler 30 shifted) in
    serve_getc s' ≡ done (some 97, record s' { key_pressed = false })
serve_getc_example =
    serve_getc_lem 30 (158 ∷ []) shifted (97, 65) (omega arith) refl
      ((omega arith, omega arith), tt)
