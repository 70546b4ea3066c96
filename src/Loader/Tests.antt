-- ===== src/Loader/Tests.antt =====
-- Concrete files for the theorems on the loaders.
use rocket.Base.{ℕ, ◌≤◌, ◌≡◌, refl, true, false, List, [], ◌∷◌, ◌++◌, some, drop, arith}
use rocket.Cpu.{M68kCpu, zero_cpu, no_host, ok}
use rocket.Loader.Text.{fgets, c_string, strip_last, hex_val, parse_byte}
use rocket.Loader.Binary.{m68k_load_bin}
use rocket.Loader.Srec.{srec_line, srec_lines, srec_chomp, m68k_load_srec}
use rocket.Loader.Ihex.{m68k_load_ihex}
use rocket.Loader.Copy.{copied, m68k_load_bin-copied}
use rocket.Loader.Lines.{srec_line-too_long}
use rocket.Loader.Printed.{s1, printed, srec_lines-printed}
use rocket.Loader.Returns.{m68k_load-opened}

abbrev board : M68kCpu
board = record zero_cpu { memory_size = 0x2000 }

-- Three bytes where two fit.
m68k_load_bin-copied_example :
    (memory : ℕ → ℕ) × (m68k_load_bin (some (7 ∷ 8 ∷ 9 ∷ [])) 0x1FFE no_host board
      ≡ (ok (true, 2), record board { memory = memory }))
    × ((i : ℕ) → memory i ≡ copied (7 ∷ 8 ∷ 9 ∷ []) 0x1FFE 2 board.memory i)
m68k_load_bin-copied_example =
    m68k_load_bin-copied (7 ∷ 8 ∷ 9 ∷ []) 0x1FFE no_host board (omega arith) (omega arith)

-- The text of a record that announces 255 bytes.
abbrev long_text : List ℕ
long_text = b'S' ∷ b'3' ∷ b'F' ∷ b'F' ∷ b'\n' ∷ []

-- S1041000AB40, and what follows it in a file.
srec_lines-printed_example :
    (memory : ℕ → ℕ) × (srec_lines 9
        (printed b'1' (0x10 ∷ 0x00 ∷ []) (0xAB ∷ []) ++ b'\n' ∷ long_text)
        no_host
        board
      ≡ srec_lines 8 long_text no_host (record board { memory = memory }))
    × ((i : ℕ) → memory i ≡ copied (0xAB ∷ []) 0x1000 1 board.memory i)
srec_lines-printed_example =
    srec_lines-printed 8 b'1' (0x10 ∷ 0x00 ∷ []) (0xAB ∷ []) long_text no_host board (s1 refl refl)
      (omega arith, (omega arith, tt)) (omega arith, tt) (omega arith) (omega arith) (omega arith)

announced : 254 ≤ parse_byte (drop 2 (srec_chomp (fgets 512 long_text).0))
unfolding fgets c_string strip_last srec_chomp parse_byte hex_val
announced = omega arith

srec_line-too_long_example :
    srec_line (srec_chomp (fgets 512 long_text).0) no_host board ≡ (ok false, board)
srec_line-too_long_example = srec_line-too_long long_text no_host board announced

m68k_load-opened_example :
    ((m68k_load_srec (some long_text) no_host board).0 ≡ ok true)
    × ((m68k_load_ihex (some long_text) no_host board).0 ≡ ok true)
    × (n : ℕ) × ((m68k_load_bin (some long_text) 0x100 no_host board).0 ≡ ok (true, n))
m68k_load-opened_example = m68k_load-opened (some long_text) 0x100 no_host board
