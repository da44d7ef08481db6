-- ===== src/CpuInfo/Tests.antt =====
-- Two CPUs that share a block of keys, and one in a block of its own.
use asct.Prelude.{◌≡◌, refl, Option, List, [], ◌∷◌, ◌++◌, ok, err, ℤ, pos}
use asct.Text.{Text, codes, int, starts_with}
use asct.CpuInfo.{value_error, read_proc_cpuinfo}
use asct.CpuInfo.Numbers.{Ascends, processor_numbers, yielded_numbers, read_proc_cpuinfo-numbers}

abbrev line : Text → Text
line s = s ++ b'\n' ∷ []

abbrev small_file : List Text
small_file =
    line (codes "processor\t: 0")
    ∷ line (codes "processor\t: 1")
    ∷ line (codes "CPU part\t: 0xd40")
    ∷ line []
    ∷ line (codes "processor\t: 2")
    ∷ line (codes "CPU part\t: 0xd4f")
    ∷ []

abbrev descending : List Text
descending = line (codes "processor\t: 1") ∷ line [] ∷ line (codes "processor\t: 0") ∷ []

small_read : (read_proc_cpuinfo small_file).0 ≡ ok tt
unfolding read_proc_cpuinfo int starts_with
small_read = refl

small_numbers : yielded_numbers small_file ≡ pos 0 ∷ pos 1 ∷ pos 2 ∷ []
unfolding read_proc_cpuinfo int starts_with
small_numbers = refl

descending_read : (read_proc_cpuinfo descending).0 ≡ err value_error
unfolding read_proc_cpuinfo int starts_with
descending_read = refl

read_proc_cpuinfo-numbers_example :
    (yielded_numbers small_file ≡ processor_numbers small_file)
    × ((last : Option ℤ) × Ascends Option.none (processor_numbers small_file) last)
read_proc_cpuinfo-numbers_example = read_proc_cpuinfo-numbers small_file small_read
