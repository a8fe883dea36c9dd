-- ===== src/Tests/Features.antt =====
-- xstate_verified.c with x87 and SSE on, and AVX asked for.
use formal_verification_of_x.Prelude.{arith, []}
use formal_verification_of_x.Xstate.{Features, xstate_set_init}
use formal_verification_of_x.Xstate.Restored.{IsRestored, xstate_set_init-IsRestored}

abbrev avx_processor : Features
avx_processor = record { xfeature_mask = 7; xcr0 = 3; x86_cr0_ts = 8; calls = [] }

xstate_set_init-IsRestored_example :
    IsRestored 0x80050033 3 4 avx_processor (xstate_set_init 0x80050033 3 4 avx_processor)
xstate_set_init-IsRestored_example =
    xstate_set_init-IsRestored 0x80050033 3 4 avx_processor (omega arith)
