-- ===== src/Drivers/Keyboard/Tests.antt =====
-- Runs of the keyboard's ring of src/drivers/keyboard/keyboard.c.
use alcor2os.Base.{
  ℕ, ◌≡◌, [], ◌∷◌, ◌++◌, arith, ◌==◌, if◌then◌else◌, length, replicate, length-replicate,
}
use alcor2os.Drivers.Keyboard.{Keyboard, keyboard_irq}
use alcor2os.Drivers.Keyboard.Queue.{IsValid, scancodes, keyboard_irq-scancodes}

-- Two bytes at the end of the ring.
abbrev two_keys : Keyboard
two_keys = record {
  kb_buffer = replicate 256 30;
  kb_read_pos = 255;
  kb_write_pos = 1;
  kb_drop_count = 7;
}

two_keys-IsValid : IsValid two_keys
two_keys-IsValid = record {
  sized = length-replicate {A = ℕ} 256 30;
  read_in = omega arith;
  write_in = omega arith;
  drop_in = omega arith;
}

keyboard_irq-scancodes_example :
    let k = keyboard_irq two_keys 42 in
    let full = length (scancodes two_keys) == 255 in
    IsValid k
    × (scancodes k ≡ (if full then scancodes two_keys else scancodes two_keys ++ 42 ∷ []))
    × (k.kb_drop_count ≡ (if full then 8 else 7))
keyboard_irq-scancodes_example = keyboard_irq-scancodes two_keys 42 two_keys-IsValid
