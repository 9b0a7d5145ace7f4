-- ===== src/Vbuddy/Fit.antt =====
-- Which messages of vbuddy/vbuddy.cpp fit the array they are printed to.
use risc_v_cpu.Base.{ℕ, ◌+◌, ◌≤◌, ◌≡◌, some, List, [], ◌∷◌, ◌++◌, length, length-append, arith}
use risc_v_cpu.Base.Int.{ℤ}
use risc_v_cpu.Vbuddy.Message.{
  IsInt, show_int, show_padded, length-show_int, length-show_padded, hex_text, plot_text,
  cycle_text,
}

-- The length of one to three arguments in a frame.
pub length-one : (args : List ℕ) → length (args ++ b'\n' ∷ []) ≡ length args + 1
length-one args = length-append {0} args (b'\n' ∷ [])

pub length-hex_text :
    (digit : ℕ) (v : ℤ) (text : List ℕ) → IsInt v → hex_text digit v ≡ some text → length text ≤ 16
unfolding hex_text
length-hex_text digit v text h e = ground (arith, length-one (show_int v), length-show_int v h)

pub length-plot_text :
    (y low high : ℤ) → IsInt y → IsInt low → IsInt high → length (plot_text y low high) ≤ 39
length-plot_text y low high hy hl hh = omega (
  arith,
  length-show_int y hy,
  length-show_int low hl,
  length-show_int high hh,
  length-one (b',' ∷ show_int y ++ b',' ∷ show_int low ++ b',' ∷ show_int high),
  length-append {0} (show_int y ++ b',' ∷ show_int low) (b',' ∷ show_int high),
  length-append {0} (show_int y) (b',' ∷ show_int low),
)

pub length-cycle_text : (cycle : ℤ) → IsInt cycle → length (cycle_text cycle) ≤ 22
length-cycle_text cycle h = omega (
  arith,
  length-show_padded cycle h,
  length-append {0} (show_padded cycle) (b',' ∷ b'R' ∷ b'\n' ∷ []),
  length-append {0} (show_padded cycle ++ b',' ∷ b'R' ∷ []) (b'\n' ∷ []),
  length-append {0} (show_padded cycle) (b',' ∷ b'R' ∷ []),
)
