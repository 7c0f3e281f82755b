-- ===== src/Micmem/Examples.antt =====
-- Tests of the model of host/micmem.c, and the theorems about it at concrete transfers.
use intel_xeon_phi_kernel_dr.Common.{◌≡◌, refl, some, List, [], ◌∷◌, arith}
use intel_xeon_phi_kernel_dr.Common.Int.{pos, negsuc}
use intel_xeon_phi_kernel_dr.Micmem.{
  DmaMemRange, host2dev, MicmemCtx, Move, Engine, DmaLib, einval, do_xfer, micmem_host2dev,
  micmem_dev2host, do_xfer_single, do_xfer_dual, find_1st_chunk, shift_pages, single_from,
  dual_from, do_chunk_dma_dir, do_chunk_dma, single_last, xfer_single_finish, xfer_dual_finish,
  wait_both, wait_for_dma, free_dma_channel, hold, remove,
}
use intel_xeon_phi_kernel_dr.Micmem.Outcome.{moves}
use intel_xeon_phi_kernel_dr.Micmem.Transfer.{
  Within, Transferred, do_xfer-Transferred, dual_moves-single,
}

abbrev lib : DmaLib
lib = record {
  request = λ e ch. pos 0;
  program = λ e c. pos 7;
  polls = λ e ch cookie. pos 0 ∷ pos 1 ∷ [];
}

-- A library that accepts two copies only.
abbrev two_copies : DmaLib
two_copies = record {
  request = λ e ch. pos 0;
  program = λ e c. elim e.copies [ _ ∷ _ ∷ _ ↦ negsuc 11 | _ ↦ pos 7 ];
  polls = λ e ch cookie. pos 1 ∷ [];
}

abbrev ctx : MicmemCtx
ctx = record { h2d_ch = 0; d2h_ch = 1; h2d_ch2 = 2; d2h_ch2 = 3 }

abbrev range : DmaMemRange
range = record {
  chunks =
      record { dma_addr = 0x10000; num_pages = 2 }
      ∷ record { dma_addr = 0x80000; num_pages = 1 }
      ∷ record { dma_addr = 0x200000; num_pages = 3 }
      ∷ [];
  size = 24576;
}

abbrev idle : Engine
idle = record { copies = []; held = [] }

abbrev three : List Move
three =
    record { src = 0x11000; dst = 0x5000; size = 4096 }
    ∷ record { src = 0x80000; dst = 0x6000; size = 4096 }
    ∷ record { src = 0x200000; dst = 0x7000; size = 4096 }
    ∷ []

abbrev after_single : Engine
after_single = record {
  copies =
      record { channel = 0; move = record { src = 0x11000; dst = 0x5000; size = 4096 } }
      ∷ record { channel = 0; move = record { src = 0x80000; dst = 0x6000; size = 4096 } }
      ∷ record { channel = 0; move = record { src = 0x200000; dst = 0x7000; size = 4096 } }
      ∷ [];
  held = [];
}

abbrev after_dual : Engine
after_dual = record {
  copies =
      record { channel = 2; move = record { src = 0x11000; dst = 0x5000; size = 4096 } }
      ∷ record { channel = 0; move = record { src = 0x80000; dst = 0x6000; size = 4096 } }
      ∷ record { channel = 2; move = record { src = 0x200000; dst = 0x7000; size = 4096 } }
      ∷ [];
  held = [];
}

single_test : do_xfer lib ctx 0x5000 range 4096 12288 host2dev 1 idle ≡ some (pos 0, after_single)
unfolding do_xfer do_xfer_single do_xfer_dual find_1st_chunk shift_pages single_from dual_from
    do_chunk_dma_dir do_chunk_dma single_last xfer_single_finish xfer_dual_finish wait_both
    wait_for_dma free_dma_channel hold remove
single_test = refl

dual_test : do_xfer lib ctx 0x5000 range 4096 12288 host2dev 2 idle ≡ some (pos 0, after_dual)
unfolding do_xfer do_xfer_single do_xfer_dual find_1st_chunk shift_pages single_from dual_from
    do_chunk_dma_dir do_chunk_dma single_last xfer_single_finish xfer_dual_finish wait_both
    wait_for_dma free_dma_channel hold remove
dual_test = refl

refused_test :
    micmem_host2dev two_copies ctx 0x5000 range 4096 12288 0 idle
    ≡ some (
      negsuc 11,
      record {
        copies =
            record { channel = 0; move = record { src = 0x11000; dst = 0x5000; size = 4096 } }
            ∷ record { channel = 0; move = record { src = 0x80000; dst = 0x6000; size = 4096 } }
            ∷ [];
        held = [];
      },
    )
unfolding micmem_host2dev do_xfer do_xfer_single find_1st_chunk shift_pages single_from
    do_chunk_dma_dir do_chunk_dma single_last xfer_single_finish wait_for_dma free_dma_channel hold
    remove
refused_test = refl

past_end_test : micmem_dev2host lib ctx range 20480 0x5000 8192 0 idle ≡ some (einval, idle)
unfolding micmem_dev2host do_xfer
past_end_test = refl

within : Within range 0x5000 4096 12288
within = record {
  fits = omega arith;
  sized = omega arith;
  some_bytes = omega arith;
  no_wrap = omega arith;
  card_top = omega arith;
}

do_xfer-Transferred_example :
    Transferred range host2dev 0x5000 4096 12288 idle
      (do_xfer two_copies ctx 0x5000 range 4096 12288 host2dev 2 idle)
do_xfer-Transferred_example =
    do_xfer-Transferred two_copies ctx 0x5000 range 4096 12288 host2dev idle within 2 (omega arith)
      (omega arith)

dual_moves-single_example : moves after_single ≡ moves after_dual
dual_moves-single_example =
    dual_moves-single lib ctx 0x5000 range 4096 12288 host2dev idle within after_single after_dual
      (omega arith) single_test dual_test
