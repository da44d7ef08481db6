-- ===== src/CpuSets/Tests.antt =====
-- Small sets of CPUs.
use asct.Prelude.{◌≡◌, ok, some, arith, nat_key}
use asct.CpuSets.{cpusetstr_mask, mask_cpusetstr}
use asct.CpuSets.SysfsText.{cpusetstr_mask-mask_cpusetstr}

cpusetstr_mask-mask_cpusetstr_example : cpusetstr_mask (mask_cpusetstr 13) ≡ ok (some 13)
cpusetstr_mask-mask_cpusetstr_example = cpusetstr_mask-mask_cpusetstr 13 (omega arith)
