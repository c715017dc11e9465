-- ===== src/Pmm/Init/Tests.antt =====
-- pmm_init on a map of two usable regions.
use snap_os.Prelude.{arith, Returns}
use snap_os.Pmm.Init.{Frames, FrameSource, pmm_init}
use snap_os.Pmm.Init.Ready.{Initialised, pmm_init-Initialised}
use snap_os.EarlyPmm.Sample.{clean, pa, clean-IsMap, pa-IsPlaced}

abbrev start : Frames
start = record { pmm = record { bitmap = λ i. 0; size = 0 }; pa = pa; source = FrameSource.early }

pmm_init-Initialised_example : Returns (Initialised clean start) (pmm_init (λ a i. 0) clean start)
pmm_init-Initialised_example =
    pmm_init-Initialised (λ a i. 0) clean start clean-IsMap (λ a i. omega arith) pa-IsPlaced
