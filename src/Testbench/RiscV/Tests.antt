-- ===== src/Testbench/RiscV/Tests.antt =====
-- The tests of testbench/risc_v/versions/risc_v_single_instructions.h behind `reset()`. The program of each, which
-- `make assemble` builds, is the `rom` of a run.
use risc_v_cpu.Base.{◌-◌, ◌^◌, List, [], ◌∷◌}
use risc_v_cpu.Testbench.RiscV.{Action, ticks, assert_reg, expect_pc, loop, a0, a1, a2, a3}

unfoldable pub addi_test : List Action
addi_test = (ticks 1) ∷ (assert_reg a1 5) ∷ (ticks 1) ∷ []

unfoldable pub lb_test : List Action
lb_test =
    (ticks 1)
    ∷ loop 8 1 a0 0
        (0x67 ∷ 0x45 ∷ 0x23 ∷ 0x01 ∷ 0xFFFFFF83 ∷ 0xFFFFFF82 ∷ 0xFFFFFF81 ∷ 0xFFFFFF80 ∷ [])

unfoldable pub lh_test : List Action
lh_test =
    (ticks 1)
    ∷ loop 8 1 a0 0 (
        0x4567 ∷ 0x2345 ∷ 0x0123 ∷ 0xFFFF8301 ∷ 0xFFFF8283 ∷ 0xFFFF8182 ∷ 0xFFFF8081 ∷ 0x00000080
        ∷ [])

unfoldable pub lw_test : List Action
lw_test = (ticks 2) ∷ (assert_reg a0 0xFFFFFFFF) ∷ (ticks 3) ∷ []

unfoldable pub lbu_test : List Action
lbu_test = (ticks 1) ∷ loop 8 1 a0 0 (0x67 ∷ 0x45 ∷ 0x23 ∷ 0x01 ∷ 0x83 ∷ 0x82 ∷ 0x81 ∷ 0x80 ∷ [])

unfoldable pub lhu_test : List Action
lhu_test =
    (ticks 1)
    ∷ loop 8 1 a0 0 (0x4567 ∷ 0x2345 ∷ 0x0123 ∷ 0x8301 ∷ 0x8283 ∷ 0x8182 ∷ 0x8081 ∷ 0x0080 ∷ [])

unfoldable pub sb_test : List Action
sb_test = (ticks 1) ∷ (assert_reg a0 0x12) ∷ (ticks 1) ∷ (ticks 1) ∷ (assert_reg a1 0x12) ∷ []

unfoldable pub sh_test : List Action
sh_test = (ticks 1) ∷ (assert_reg a0 0x0123) ∷ (ticks 1) ∷ (ticks 1) ∷ (assert_reg a1 0x0123) ∷ []

unfoldable pub beq_test : List Action
beq_test =
    (ticks 2)
    ∷ (assert_reg a1 1)
    ∷ (ticks 1)
    ∷ (assert_reg a2 2)
    ∷ (ticks 1)
    ∷ (expect_pc 0xBFC00010)
    ∷ (ticks 1)
    ∷ (assert_reg a1 1)
    ∷ (ticks 1)
    ∷ (assert_reg a2 1)
    ∷ (ticks 1)
    ∷ (expect_pc 0xBFC00010)
    ∷ (ticks 1)
    ∷ []

unfoldable pub bne_test : List Action
bne_test =
    (ticks 2)
    ∷ (assert_reg a1 1)
    ∷ (ticks 1)
    ∷ (assert_reg a2 1)
    ∷ (ticks 1)
    ∷ (expect_pc 0xBFC00010)
    ∷ (ticks 1)
    ∷ (assert_reg a1 1)
    ∷ (ticks 1)
    ∷ (assert_reg a2 2)
    ∷ (ticks 1)
    ∷ (expect_pc 0xBFC00010)
    ∷ (ticks 1)
    ∷ []

unfoldable pub bge_test : List Action
bge_test =
    (ticks 2)
    ∷ (assert_reg a1 1)
    ∷ (ticks 1)
    ∷ (assert_reg a2 2)
    ∷ (ticks 1)
    ∷ (expect_pc 0xBFC00010)
    ∷ (ticks 1)
    ∷ (assert_reg a1 2)
    ∷ (ticks 1)
    ∷ (assert_reg a2 0xFFFFFFFF)
    ∷ (ticks 1)
    ∷ (expect_pc 0xBFC00010)
    ∷ (ticks 1)
    ∷ []

unfoldable pub bgeu_test : List Action
bgeu_test =
    (ticks 1)
    ∷ (assert_reg a1 1)
    ∷ (ticks 1)
    ∷ (assert_reg a2 2)
    ∷ (ticks 1)
    ∷ (expect_pc 0xBFC0000C)
    ∷ (ticks 1)
    ∷ (assert_reg a1 0xFFFFFFFF)
    ∷ (ticks 1)
    ∷ (assert_reg a2 1)
    ∷ (ticks 1)
    ∷ (expect_pc 0xBFC0000C)
    ∷ (ticks 1)
    ∷ []

unfoldable pub blt_test : List Action
blt_test =
    (ticks 1)
    ∷ (assert_reg a1 2)
    ∷ (ticks 1)
    ∷ (assert_reg a2 1)
    ∷ (ticks 1)
    ∷ (expect_pc 0xBFC0000C)
    ∷ (ticks 1)
    ∷ (assert_reg a1 0xFFFFFFFF)
    ∷ (ticks 1)
    ∷ (assert_reg a2 2)
    ∷ (ticks 1)
    ∷ (expect_pc 0xBFC0000C)
    ∷ (ticks 1)
    ∷ []

unfoldable pub bltu_test : List Action
bltu_test =
    (ticks 1)
    ∷ (assert_reg a1 2)
    ∷ (ticks 1)
    ∷ (assert_reg a2 1)
    ∷ (ticks 1)
    ∷ (expect_pc 0xBFC0000C)
    ∷ (ticks 1)
    ∷ (assert_reg a1 1)
    ∷ (ticks 1)
    ∷ (assert_reg a2 0xFFFFFFFF)
    ∷ (ticks 1)
    ∷ (expect_pc 0xBFC0000C)
    ∷ (ticks 1)
    ∷ []

unfoldable pub lui_test : List Action
lui_test = (ticks 1) ∷ (assert_reg a1 0x00015000) ∷ (ticks 1) ∷ []

unfoldable pub auipc_test : List Action
auipc_test = (ticks 2) ∷ (assert_reg a1 0x15318004) ∷ (ticks 1) ∷ []

unfoldable pub jalr_test : List Action
jalr_test =
    (ticks 1)
    ∷ (assert_reg a0 0xBFC00000)
    ∷ (ticks 1)
    ∷ (assert_reg 1 0xBFC00008)
    ∷ (ticks 1)
    ∷ (expect_pc 0xBFC0000C)
    ∷ (ticks 1)
    ∷ (assert_reg a2 0x00000001)
    ∷ (expect_pc 0xBFC00010)
    ∷ (assert_reg 0 0x0)
    ∷ (ticks 1)
    ∷ (expect_pc 0xBFC00008)
    ∷ (ticks 1)
    ∷ (assert_reg a1 0xFF000000)
    ∷ (ticks 5)
    ∷ []

unfoldable pub jal_test : List Action
jal_test =
    (ticks 1)
    ∷ (expect_pc 0xBFC00008)
    ∷ (assert_reg 1 0xBFC00004)
    ∷ (ticks 1)
    ∷ (assert_reg a2 0x00000001)
    ∷ (ticks 1)
    ∷ []

unfoldable pub add_test : List Action
add_test =
    (ticks 1)
    ∷ (assert_reg a2 1)
    ∷ (ticks 1)
    ∷ (assert_reg a3 2)
    ∷ (ticks 1)
    ∷ (assert_reg a1 3)
    ∷ (ticks 1)
    ∷ (assert_reg a2 0xFFFFFFFF)
    ∷ (ticks 1)
    ∷ (assert_reg a3 0x00000001)
    ∷ (ticks 1)
    ∷ (assert_reg a1 0x00000000)
    ∷ (ticks 5)
    ∷ []

unfoldable pub sub_test : List Action
sub_test = (ticks 3) ∷ (assert_reg a1 1) ∷ (ticks 3) ∷ (assert_reg a1 (2 ^ 32 - 5)) ∷ (ticks 5) ∷ []

unfoldable pub sll_test : List Action
sll_test = (ticks 3) ∷ (assert_reg a1 0x118) ∷ (ticks 3) ∷ (assert_reg a1 0x98) ∷ (ticks 5) ∷ []

unfoldable pub slt_test : List Action
slt_test = (ticks 1) ∷ loop 5 5 a1 2 (0 ∷ 0 ∷ 0 ∷ 1 ∷ 1 ∷ 1 ∷ [])

unfoldable pub and_test : List Action
and_test =
    (ticks 1) ∷ loop 5 5 a1 2 (0xFFFFFFFF ∷ 0x02244220 ∷ 0x8000821A ∷ 0x04240002 ∷ 0x105080A1 ∷ [])

unfoldable pub or_test : List Action
or_test =
    (ticks 1)
    ∷ loop 6 5 a1 2
        (0xFFFFFFFF ∷ 0x736DF97D ∷ 0xBF73AFF3 ∷ 0x3F3EF2B9 ∷ 0xFE7AFFFF ∷ 0x8FB78CFE ∷ [])

unfoldable pub xor_test : List Action
xor_test =
    (ticks 1)
    ∷ loop 6 5 a1 2
        (0x0 ∷ 0x95511559 ∷ 0x6433891B ∷ 0x7B05859D ∷ 0x87DF334E ∷ 0xF4976244 ∷ 0xE0B20A37 ∷ [])

-- The tests whose first assertion on a register comes within two cycles of the reset.
unfoldable pub early_tests : List (List Action)
unfolding addi_test lb_test lh_test lw_test lbu_test lhu_test sb_test sh_test beq_test bne_test
    bge_test bgeu_test blt_test bltu_test lui_test auipc_test jalr_test jal_test add_test loop
early_tests =
    addi_test ∷ lb_test ∷ lh_test ∷ lw_test ∷ lbu_test ∷ lhu_test ∷ sb_test ∷ sh_test ∷ beq_test
    ∷ bne_test ∷ bge_test ∷ bgeu_test ∷ blt_test ∷ bltu_test ∷ lui_test ∷ auipc_test ∷ jalr_test
    ∷ jal_test ∷ add_test ∷ []
