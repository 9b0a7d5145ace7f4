-- ===== src/Examples/Pipe.antt =====
-- The pipeline and the data memory of rtl/ on concrete states.
use risc_v_cpu.Base.{◌-◌, ◌^◌, ◌≡◌, inr, refl, true, arith}
use risc_v_cpu.Hazard.{forward}
use risc_v_cpu.Pipeline.{operand, reg_file_edge}
use risc_v_cpu.Pipeline.Laws.{operand-forward}
use risc_v_cpu.Memory.{wrapper_edge, wrapper_out}
use risc_v_cpu.Memory.Laws.{
  access_size, loaded, sh_lh, wrapper_out-wrapper_edge, wrapper_edge-frame,
}

-- Both stages write x5; the younger value wins.
operand-forward_example :
    operand (forward 5 5 5 true true) 10 20 30
    ≡ reg_file_edge true 5 10 (reg_file_edge true 5 20 (λ a. 30)) 5
operand-forward_example = operand-forward (λ a. 30) 5 5 5 10 20 true true

-- `sh` and `lh` of a negative half word.
wrapper_out-wrapper_edge_example :
    wrapper_out 0 100 1 (wrapper_edge 0 100 0xFFFE 1 true (λ a. 0)) ≡ loaded 1 0xFFFE
wrapper_out-wrapper_edge_example =
    wrapper_out-wrapper_edge sh_lh 0 100 0xFFFE (λ a. 0) (omega arith) (omega arith)

loaded_half : loaded 1 0xFFFE ≡ 2 ^ 32 - 2
unfolding loaded
loaded_half = refl

wrapper_edge-frame_example : wrapper_edge 0 100 0xFFFE 1 true (λ a. 7) 102 ≡ 7
unfolding access_size
wrapper_edge-frame_example = wrapper_edge-frame 0 100 0xFFFE 1 102 (λ a. 7) (inr (omega arith))
