-- ===== src/Pmu.antt =====
-- The events of the PMU: src/core/asct_pmu_api.py, the table, the lookup of an event by its code, and
-- the check of the requested events in `setup_env`.
mod Reverse
mod Tests
use asct.Prelude.{
  ℕ, String, Bool, Option, none, some, List, [], ◌∷◌, ◌++◌, Result, ok, err, and_then, leb,
  if◌then◌else◌, ◌==◌, string_key, nat_key, length,
}
use asct.Dict.{Dict, lookup, insert, contains}

pub data PmuError : Type 0 where
  value_error key_error : PmuError

-- The common architectural events.
unfoldable pub common_events : Dict String ℕ
common_events =
    ("SW_INCR", 0x0000)
    ∷ ("L1I_CACHE_REFILL", 0x0001)
    ∷ ("L1I_TLB_REFILL", 0x0002)
    ∷ ("L1D_CACHE_REFILL", 0x0003)
    ∷ ("L1D_CACHE", 0x0004)
    ∷ ("L1D_TLB_REFILL", 0x0005)
    ∷ ("LD_RETIRED", 0x0006)
    ∷ ("ST_RETIRED", 0x0007)
    ∷ ("INST_RETIRED", 0x0008)
    ∷ ("EXC_TAKEN", 0x0009)
    ∷ ("EXC_RETURN", 0x000a)
    ∷ ("CID_WRITE_RETIRED", 0x000b)
    ∷ ("PC_WRITE_RETIRED", 0x000c)
    ∷ ("BR_IMMED_RETIRED", 0x000d)
    ∷ ("BR_RETURN_RETIRED", 0x000e)
    ∷ ("UNALIGNED_LDST_RETIRED", 0x000f)
    ∷ ("BR_MIS_PRED", 0x0010)
    ∷ ("CPU_CYCLES", 0x0011)
    ∷ ("BR_PRED", 0x0012)
    ∷ ("MEM_ACCESS", 0x0013)
    ∷ ("L1I_CACHE", 0x0014)
    ∷ ("L1D_CACHE_WB", 0x0015)
    ∷ ("L2D_CACHE", 0x0016)
    ∷ ("L2D_CACHE_REFILL", 0x0017)
    ∷ ("L2D_CACHE_WB", 0x0018)
    ∷ ("BUS_ACCESS", 0x0019)
    ∷ ("MEMORY_ERROR", 0x001a)
    ∷ ("INST_SPEC", 0x001b)
    ∷ ("TTBR_WRITE_RETIRED", 0x001c)
    ∷ ("BUS_CYCLES", 0x001d)
    ∷ ("CHAIN", 0x001e)
    ∷ ("L1D_CACHE_ALLOCATE", 0x001f)
    ∷ ("L2D_CACHE_ALLOCATE", 0x0020)
    ∷ ("BR_RETIRED", 0x0021)
    ∷ ("BR_MIS_PRED_RETIRED", 0x0022)
    ∷ ("STALL_FRONTEND", 0x0023)
    ∷ ("STALL_BACKEND", 0x0024)
    ∷ ("L1D_TLB", 0x0025)
    ∷ ("L1I_TLB", 0x0026)
    ∷ ("L2I_CACHE", 0x0027)
    ∷ ("L2I_CACHE_REFILL", 0x0028)
    ∷ ("L3D_CACHE_ALLOCATE", 0x0029)
    ∷ ("L3D_CACHE_REFILL", 0x002a)
    ∷ ("L3D_CACHE", 0x002b)
    ∷ ("L3D_CACHE_WB", 0x002c)
    ∷ ("L2D_TLB_REFILL", 0x002d)
    ∷ ("L2I_TLB_REFILL", 0x002e)
    ∷ ("L2D_TLB", 0x002f)
    ∷ ("L2I_TLB", 0x0030)
    ∷ ("REMOTE_ACCESS", 0x0031)
    ∷ ("LL_CACHE", 0x0032)
    ∷ ("LL_CACHE_MISS", 0x0033)
    ∷ ("DTLB_WALK", 0x0034)
    ∷ ("ITLB_WALK", 0x0035)
    ∷ ("LL_CACHE_RD", 0x0036)
    ∷ ("LL_CACHE_MISS_RD", 0x0037)
    ∷ ("REMOTE_ACCESS_RD", 0x0038)
    ∷ ("L1D_CACHE_LMISS_RD", 0x0039)
    ∷ ("OP_RETIRED", 0x003a)
    ∷ ("OP_SPEC", 0x003b)
    ∷ ("STALL", 0x003c)
    ∷ ("STALL_SLOT_BACKEND", 0x003d)
    ∷ ("STALL_SLOT_FRONTEND", 0x003e)
    ∷ ("STALL_SLOT", 0x003f)
    ∷ []

-- The recommended implementation-defined events.
unfoldable pub recommended_events : Dict String ℕ
recommended_events =
    ("L1D_CACHE_RD", 0x0040)
    ∷ ("L1D_CACHE_WR", 0x0041)
    ∷ ("L1D_CACHE_REFILL_RD", 0x0042)
    ∷ ("L1D_CACHE_REFILL_WR", 0x0043)
    ∷ ("L1D_CACHE_REFILL_INNER", 0x0044)
    ∷ ("L1D_CACHE_REFILL_OUTER", 0x0045)
    ∷ ("L1D_CACHE_WB_VICTIM", 0x0046)
    ∷ ("L1D_CACHE_WB_CLEAN", 0x0047)
    ∷ ("L1D_CACHE_INVAL", 0x0048)
    ∷ ("L1D_TLB_REFILL_RD", 0x004c)
    ∷ ("L1D_TLB_REFILL_WR", 0x004d)
    ∷ ("L1D_TLB_RD", 0x004e)
    ∷ ("L1D_TLB_WR", 0x004f)
    ∷ ("L2D_CACHE_RD", 0x0050)
    ∷ ("L2D_CACHE_WR", 0x0051)
    ∷ ("L2D_CACHE_REFILL_RD", 0x0052)
    ∷ ("L2D_CACHE_REFILL_WR", 0x0053)
    ∷ ("L2D_CACHE_WB_VICTIM", 0x0056)
    ∷ ("L2D_CACHE_WB_CLEAN", 0x0057)
    ∷ ("L2D_CACHE_INVAL", 0x0058)
    ∷ ("L2D_TLB_REFILL_RD", 0x005c)
    ∷ ("L2D_TLB_REFILL_WR", 0x005d)
    ∷ ("L2D_TLB_RD", 0x005e)
    ∷ ("L2D_TLB_WR", 0x005f)
    ∷ ("BUS_ACCESS_RD", 0x0060)
    ∷ ("BUS_ACCESS_WR", 0x0061)
    ∷ ("BUS_ACCESS_SHARED", 0x0062)
    ∷ ("BUS_ACCESS_NOT_SHARED", 0x0063)
    ∷ ("BUS_ACCESS_NORMAL", 0x0064)
    ∷ ("BUS_ACCESS_PERIPH", 0x0065)
    ∷ ("MEM_ACCESS_RD", 0x0066)
    ∷ ("MEM_ACCESS_WR", 0x0067)
    ∷ ("UNALIGNED_LD_SPEC", 0x0068)
    ∷ ("UNALIGNED_ST_SPEC", 0x0069)
    ∷ ("UNALIGNED_LDST_SPEC", 0x006a)
    ∷ ("LDREX_SPEC", 0x006c)
    ∷ ("STREX_PASS_SPEC", 0x006d)
    ∷ ("STREX_FAIL_SPEC", 0x006e)
    ∷ ("STREX_SPEC", 0x006f)
    ∷ ("LD_SPEC", 0x0070)
    ∷ ("ST_SPEC", 0x0071)
    ∷ ("LDST_SPEC", 0x0072)
    ∷ ("DP_SPEC", 0x0073)
    ∷ ("ASE_SPEC", 0x0074)
    ∷ ("VFP_SPEC", 0x0075)
    ∷ ("PC_WRITE_SPEC", 0x0076)
    ∷ ("CRYPTO_SPEC", 0x0077)
    ∷ ("BR_IMMED_SPEC", 0x0078)
    ∷ ("BR_RETURN_SPEC", 0x0079)
    ∷ ("BR_INDIRECT_SPEC", 0x007a)
    ∷ ("ISB_SPEC", 0x007c)
    ∷ ("DSB_SPEC", 0x007d)
    ∷ ("DMB_SPEC", 0x007e)
    ∷ ("CSDB_SPEC", 0x007f)
    ∷ ("EXC_UNDEF", 0x0081)
    ∷ ("EXC_SVC", 0x0082)
    ∷ ("EXC_PABORT", 0x0083)
    ∷ ("EXC_DABORT", 0x0084)
    ∷ ("EXC_IRQ", 0x0086)
    ∷ ("EXC_FIQ", 0x0087)
    ∷ ("EXC_SMC", 0x0088)
    ∷ ("EXC_HVC", 0x008a)
    ∷ ("EXC_TRAP_PABORT", 0x008b)
    ∷ ("EXC_TRAP_DABORT", 0x008c)
    ∷ ("EXC_TRAP_OTHER", 0x008d)
    ∷ ("EXC_TRAP_IRQ", 0x008e)
    ∷ ("EXC_TRAP_FIQ", 0x008f)
    ∷ ("RC_LD_SPEC", 0x0090)
    ∷ ("RC_ST_SPEC", 0x0091)
    ∷ ("L3D_CACHE_RD", 0x00a0)
    ∷ ("L3D_CACHE_WR", 0x00a1)
    ∷ ("L3D_CACHE_REFILL_RD", 0x00a2)
    ∷ ("L3D_CACHE_REFILL_WR", 0x00a3)
    ∷ ("L3D_CACHE_WB_VICTIM", 0x00a6)
    ∷ ("L3D_CACHE_WB_CLEAN", 0x00a7)
    ∷ ("L3D_CACHE_INVAL", 0x00a8)
    ∷ []

-- The events from 0x4000 on.
unfoldable pub extended_events : Dict String ℕ
extended_events =
    ("SAMPLE_POP", 0x4000)
    ∷ ("SAMPLE_FEED", 0x4001)
    ∷ ("SAMPLE_FILTRATE", 0x4002)
    ∷ ("SAMPLE_COLLISION", 0x4003)
    ∷ ("CNT_CYCLES", 0x4004)
    ∷ ("STALL_BACKEND_MEM", 0x4005)
    ∷ ("L1I_CACHE_LMISS", 0x4006)
    ∷ ("L2D_CACHE_LMISS_RD", 0x4009)
    ∷ ("L2I_CACHE_LMISS", 0x400a)
    ∷ ("L3D_CACHE_LMISS_RD", 0x400b)
    ∷ ("TRB_WRAP", 0x400c)
    ∷ ("PMU_OVFS", 0x400d)
    ∷ ("TRB_TRIG", 0x400e)
    ∷ ("PMU_HOVFS", 0x400f)
    ∷ ("TRCEXTOUT0", 0x4010)
    ∷ ("TRCEXTOUT1", 0x4011)
    ∷ ("TRCEXTOUT2", 0x4012)
    ∷ ("TRCEXTOUT3", 0x4013)
    ∷ ("CTI_TRIGOUT4", 0x4018)
    ∷ ("CTI_TRIGOUT5", 0x4019)
    ∷ ("CTI_TRIGOUT6", 0x401a)
    ∷ ("CTI_TRIGOUT7", 0x401b)
    ∷ ("LDST_ALIGN_LAT", 0x4020)
    ∷ ("LD_ALIGN_LAT", 0x4021)
    ∷ ("ST_ALIGN_LAT", 0x4022)
    ∷ ("MEM_ACCESS_CHECKED", 0x4024)
    ∷ ("MEM_ACCESS_CHECKED_RD", 0x4025)
    ∷ ("MEM_ACCESS_CHECKED_WR", 0x4026)
    ∷ ("TSTART_RETIRED", 0x4030)
    ∷ ("TCOMMIT_RETIRED", 0x4031)
    ∷ ("TME_TRANSACTION_FAILED", 0x4032)
    ∷ ("TME_INST_RETIRED_COMMITTED", 0x4034)
    ∷ ("TME_CPU_CYCLES_COMMITTED", 0x4035)
    ∷ ("TME_FAILURE_CNCL", 0x4038)
    ∷ ("TME_FAILURE_NEST", 0x4039)
    ∷ ("TME_FAILURE_ERR", 0x403a)
    ∷ ("TME_FAILURE_IMP", 0x403b)
    ∷ ("TME_FAILURE_MEM", 0x403c)
    ∷ ("TME_FAILURE_SIZE", 0x403d)
    ∷ ("TME_FAILURE_TLBI", 0x403e)
    ∷ ("TME_FAILURE_WSET", 0x403f)
    ∷ []

-- ARMV8_PMUV3_EVENTS
unfoldable pub armv8_pmuv3_events : Dict String ℕ
unfolding common_events recommended_events extended_events
armv8_pmuv3_events = common_events ++ (recommended_events ++ extended_events)

-- `{v: k for k, v in events.items()}`
unfoldable pub reversed_onto : Dict ℕ String → Dict String ℕ → Dict ℕ String
unfolding insert
reversed_onto result [] = result
reversed_onto result ((k, v) ∷ events) = reversed_onto (insert v k result) events

-- REVERSE_ARMV8_PMUV3_EVENTS
unfoldable pub reverse_armv8_pmuv3_events : Dict ℕ String
unfolding reversed_onto armv8_pmuv3_events
reverse_armv8_pmuv3_events = reversed_onto [] armv8_pmuv3_events

-- `list(dict.fromkeys(names))`, the names seen so far first
unfoldable pub unique_names : List String → List String → List String
unfolding contains
unique_names seen [] = seen
unique_names seen (n ∷ names) =
    unique_names (if contains n seen then seen else seen ++ n ∷ []) names

-- `[ARMV8_PMUV3_EVENTS[n] for n in names]`
unfoldable pub event_ids : List String → Result PmuError (List ℕ)
unfolding lookup armv8_pmuv3_events
event_ids [] = ok []
event_ids (n ∷ names) = elim (lookup n armv8_pmuv3_events) [
  | none ↦ err key_error
  | some v ↦ and_then (event_ids names) λ ids. ok (v ∷ ids)
]

abbrev pub max_events : ℕ
max_events = 7

-- The events that `setup_env` passes on: six and the cycle counter at most.
unfoldable pub checked_events : List String → Result PmuError (List ℕ)
unfolding unique_names event_ids
checked_events raw_event_names =
    let unique_event_names = unique_names [] raw_event_names in
    if leb (length unique_event_names) max_events
    then event_ids unique_event_names
    else err value_error

-- `[REVERSE_ARMV8_PMUV3_EVENTS[id] for id in ids]`, as the rows of `retrieve_pmu_data` are read
unfoldable pub event_names : List ℕ → Result PmuError (List String)
unfolding lookup reverse_armv8_pmuv3_events
event_names [] = ok []
event_names (v ∷ ids) = elim (lookup v reverse_armv8_pmuv3_events) [
  | none ↦ err key_error
  | some n ↦ and_then (event_names ids) λ names. ok (n ∷ names)
]
