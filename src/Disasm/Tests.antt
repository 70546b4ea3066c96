-- ===== src/Disasm/Tests.antt =====
-- Lines of the disassembler on concrete code.
use rocket.Base.{ℕ, ◌%◌, ◌≤◌, ◌≡◌, refl, some, List, get_or, length, test_bit, ◌∷◌, [], arith}
use rocket.Cpu.{M68kCpu, zero_cpu, no_host, ok}
use rocket.Bus.{memory_word}
use rocket.Disasm.Text.{
  codes, take, repeat, clip, decimal, hex_char, hex, hex_padded, left_aligned, signed,
}
use rocket.Disasm.Operand.{peek_through, peek_word, ea_text, index_text, disasm_ea_7, disasm_ea}
use rocket.Disasm.Line.{Line, line, two_operands, decode_move, decode_branch}
use rocket.Disasm.Run.{disasm_line, listing, m68k_disasm}
use rocket.Disasm.Bounds.{m68k_disasm-bounds, m68k_disasm-kept}

abbrev code_at : List ℕ → M68kCpu
code_at bytes = record zero_cpu { memory_size = 0x100; memory = λ a. get_or bytes a 0 }

abbrev listed : List ℕ → ℕ × List ℕ
listed bytes = elim (m68k_disasm 0 64 no_host (code_at bytes)).0 [
  | ok (len, some text) ↦ (len, text)
  | _ ↦ (0, [])
]

abbrev indexed : List ℕ
indexed = 0x31 ∷ 0xF0 ∷ 0x38 ∷ 0xFC ∷ 0x12 ∷ 0x34 ∷ []

-- MOVE.W -4(A0,D3.L),$1234.W.
m68k_disasm-bounds_example :
    (l : Line) × (opcode : ℕ) × (d : M68kCpu) × (m68k_disasm 0 64 no_host (code_at indexed)
      ≡ (ok (l.len, some (listing opcode l)), d))
    × (2 ≤ l.len)
    × (l.len ≤ 10)
    × (l.len % 2 ≡ 0)
    × (length (listing opcode l) ≤ 43)
    × (length l.op ≤ 7)
    × (length l.args ≤ 28)
m68k_disasm-bounds_example = m68k_disasm-bounds 0 64 no_host (code_at indexed) (omega arith)

m68k_disasm-kept_example : (m68k_disasm 0 64 no_host (code_at indexed)).1 ≡ code_at indexed
m68k_disasm-kept_example = m68k_disasm-kept 0 64 no_host (code_at indexed) refl

indexed_line : listed indexed ≡ (6, codes "31F0  MOVE.W   -4(A0,D3.L), $1234.W")
unfolding m68k_disasm disasm_line listing decode_move two_operands disasm_ea disasm_ea_7 index_text
    ea_text peek_word peek_through clip take line hex_padded hex hex_char left_aligned repeat signed
    decimal memory_word test_bit
indexed_line = refl

-- BNE to itself.
branch_line : listed (0x66 ∷ 0xFE ∷ []) ≡ (2, codes "66FE  BNE      $0")
unfolding m68k_disasm disasm_line listing decode_branch peek_word peek_through clip take line
    hex_padded hex hex_char left_aligned repeat memory_word
branch_line = refl
