-- ===== src/Loader/Binary.antt =====
-- `m68k_load_bin`. The chunks that `fread` delivers are the file.
use rocket.Base.{
  ℕ, Bool, true, false, List, [], ◌∷◌, Option, none, some, if◌then◌else◌, add32, sub32,
}
use rocket.Cpu.{M, pure, ◌>>=◌}
use rocket.Loader.Text.{loader_store}

-- The address after the last byte that was stored.
unfoldable pub store_file : List ℕ → ℕ → M ℕ
store_file [] current_addr = pure current_addr
store_file (b ∷ bytes) current_addr = do
  let rest = store_file bytes (add32 current_addr 1)
  stored ← loader_store current_addr b
  if stored then rest else pure current_addr

-- The answer, and the size that is written out.
unfoldable pub m68k_load_bin : Option (List ℕ) → ℕ → M (Bool × ℕ)
m68k_load_bin none address = pure (false, 0)
m68k_load_bin (some file) address = do
  current_addr ← store_file file address
  pure (true, sub32 current_addr address)
