-- ===== src/Recipes/Catalogue/Table.antt =====
-- The table ASCT_RECIPE_METADATA of src/core/recipes/configuration/metadata.py.
use asct.Prelude.{Bool, true, List, [], ◌∷◌, Result}
use asct.Text.{codes}
use asct.Recipes.Catalogue.{
  Entry, MetadataError, new_entry, set_default, create_category, create_metadata,
}

unfoldable pub report_recipes : Bool → Bool → List Entry
unfolding new_entry set_default create_category
report_recipes ip_dump sysreg = create_category (codes "report") (
    set_default (
      new_entry (codes "system-info") (codes "sysinfo") (codes "SystemInfo")
        (codes "system" ∷ codes "info" ∷ codes "sysreport" ∷ []) ([]) true)
    ∷ set_default (
        new_entry (codes "cmn") (codes "cmn") (codes "CMN")
          (codes "cmn" ∷ codes "interconnect" ∷ codes "registers" ∷ []) ([]) true)
    ∷ set_default (
        new_entry (codes "ucie") (codes "ucie") (codes "UCIe")
          (codes "ucie" ∷ codes "registers" ∷ []) ([]) ip_dump)
    ∷ set_default (
        new_entry (codes "dms") (codes "dms") (codes "DMS") (codes "dms" ∷ codes "registers" ∷ [])
          ([]) ip_dump)
    ∷ set_default (
        new_entry (codes "pss") (codes "pss") (codes "PSS") (codes "pss" ∷ codes "registers" ∷ [])
          ([]) ip_dump)
    ∷ (new_entry (codes "sysreg") (codes "sysreg") (codes "SysregInfo")
        (codes "register" ∷ codes "sysreg" ∷ []) ([]) sysreg)
    ∷ set_default (
        new_entry (codes "network-info") (codes "netinfo") (codes "NetworkInfo")
          (codes "IP-address"
            ∷ codes "NIC"
            ∷ codes "IP"
            ∷ codes "network"
            ∷ codes "network-namespace"
            ∷ [])
          ([]) true)
    ∷ [])

unfoldable pub memory_recipes : List Entry
unfolding new_entry set_default create_category
memory_recipes = create_category (codes "memory") (
    set_default (
      new_entry (codes "idle-latency") (codes "il") (codes "IdleLatency")
        (codes "latency" ∷ codes "uses-huge-pages" ∷ []) (codes "latency-sweep" ∷ []) true)
    ∷ set_default (
        new_entry (codes "peak-bandwidth") (codes "pb") (codes "PeakBandwidth")
          (codes "bandwidth" ∷ []) (codes "latency-sweep" ∷ []) true)
    ∷ set_default (
        new_entry (codes "cross-numa-bandwidth") (codes "cnb") (codes "CrossNumaBandwidth")
          (codes "bandwidth" ∷ []) (codes "latency-sweep" ∷ []) true)
    ∷ set_default (
        new_entry (codes "latency-sweep") (codes "ls") (codes "CycleLatencySweep")
          (codes "latency" ∷ codes "sweep" ∷ codes "uses-huge-pages" ∷ []) ([]) true)
    ∷ set_default (
        new_entry (codes "bandwidth-sweep") (codes "bs") (codes "BandwidthSweep")
          (codes "bandwidth" ∷ codes "sweep" ∷ []) (codes "latency-sweep" ∷ []) true)
    ∷ (new_entry (codes "loaded-latency") (codes "ll") (codes "LoadedLatency")
        (codes "latency" ∷ codes "uses-huge-pages" ∷ codes "long-runtime" ∷ [])
        (codes "latency-sweep" ∷ []) true)
    ∷ set_default (
        new_entry (codes "c2c-latency") (codes "ccl") (codes "CoreToCoreLatency")
          (codes "latency" ∷ codes "long-runtime" ∷ []) (codes "latency-sweep" ∷ []) true)
    ∷ [])

unfoldable pub network_recipes : List Entry
unfolding new_entry set_default create_category
network_recipes = create_category (codes "network") (
    (new_entry (codes "iperf3-tcp-sweep") (codes "ipts") (codes "Iperf3TcpSweep")
      (codes "network" ∷ codes "iperf3" ∷ codes "experimental" ∷ codes "tcp" ∷ [])
      (codes "network-info" ∷ []) true)
    ∷ (new_entry (codes "iperf3-udp-sweep") (codes "ipus") (codes "Iperf3UdpSweep")
        (codes "network" ∷ codes "iperf3" ∷ codes "experimental" ∷ codes "udp" ∷ [])
        (codes "network-info" ∷ []) true)
    ∷ [])

unfoldable pub io_recipes : List Entry
unfolding new_entry set_default create_category
io_recipes = create_category (codes "io") (
    (new_entry (codes "storage-request-size-sweep") (codes "srss") (codes "RequestSizeSweep")
      (codes "storage" ∷ codes "dsweep" ∷ []) ([]) true)
    ∷ (new_entry (codes "storage-io-depth-sweep") (codes "sids") (codes "IODepthSweep")
        (codes "storage" ∷ codes "dsweep" ∷ []) ([]) true)
    ∷ (new_entry (codes "storage-process-count-sweep") (codes "spcs") (codes "ProcessCountSweep")
        (codes "storage" ∷ codes "dsweep" ∷ []) ([]) true)
    ∷ (new_entry (codes "storage-access-pattern-sweep") (codes "saps") (codes "AccessPatternSweep")
        (codes "storage" ∷ codes "dsweep" ∷ []) ([]) true)
    ∷ [])

-- The categories in the order of the outputs.
unfoldable pub categories : Bool → Bool → List (List Entry)
unfolding report_recipes memory_recipes network_recipes io_recipes
categories ip_dump sysreg =
    (report_recipes ip_dump sysreg) ∷ memory_recipes ∷ network_recipes ∷ io_recipes ∷ []

unfoldable pub asct_recipe_metadata : Bool → Bool → Result MetadataError (List Entry)
unfolding create_metadata categories
asct_recipe_metadata ip_dump sysreg = create_metadata (categories ip_dump sysreg)
