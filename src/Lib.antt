-- ===== src/Lib.antt =====
-- asct, the Arm system characterization tool: a model of the parts that decide what is run, with which
-- settings and resources. A run selects benchmarks by keywords and adds their dependencies
-- (src/core/recipes/configuration/registry.py), converts the user's settings
-- (src/core/recipes/configuration/schema.py, src/lib/run/run_helper.py), sets the benchmarks up and
-- executes them (src/lib/run/run_helper.py); a benchmark sets up its resources through the resource
-- manager (src/core/managers/resource_manager.py), huge pages among them
-- (src/core/resources/hugepages.py). Results are cached (src/core/cache.py), an
-- interrupted run is resumed (src/core/cmd/resume.py), and two runs are compared (src/lib/sysdiff).
-- What benchmarks build on is modelled too: the topology of the host
-- (src/lib/sysreport/sr_cpulist.py), processes (src/core/benchrunner.py), command lines and their
-- output (src/core/benchspec, src/lib/networking), events and registers.
--
-- Files:
--   Prelude, Dict, Text: shared helpers. Python's exceptions are `Result`s and the state they leave
--     (`Exec`); a dictionary is an association list in insertion order; a text is a list of code
--     points, with the operations of `str` and `int` that the program uses.
--   Resources: ResourceManager, with Graph for what Python documents of graphlib's TopologicalSorter.
--     A resource is a number, and its methods, which may raise and which change the flag of their own
--     resource, are the parameter `Class` over any type of outside states.
--     Resources/Sorted treats their order, Resources/Applied treats applying;
--     Resources/Containers models MultiResourceContainer of src/core/resources/resource_base.py.
--   HugePages: the sizes and their resolver; HugePages/Store: the request objects, which two tables
--     share, as references into a heap; HugePages/Manager and HugePages/Allocation: HugePageManager,
--     of which HugePages/Once treats `acquire`;
--     HugePages/Preallocated: PreallocatedHugepageImpl. The files of sysfs are the parameter `Kernel`.
--   Recipes, Recipes/Selection: registry.py and the records of
--     src/core/recipes/configuration/metadata.py. A Python set is a list without repetition.
--     Recipes/Categories: the filters by category and the tags of metadata.py.
--     Recipes/Catalogue: the catalogue of recipes of metadata.py with its checks, and in
--     Recipes/Catalogue/Table its table, without descriptions and settings.
--   Config: the conversion functions of schema.py, `num_list_conv` for `int` and the comma.
--   Trees: the nested dictionaries of src/lib/utility/misc.py.
--   UserConfig: `get_conv_user_config` of run_helper.py with what it calls. Raw and converted values
--     are any two types, and conversions are parameters.
--   Run: `setup_benchmarks`, `execute_benchmarks` and `teardown_benchmarks` of run_helper.py. What a
--     benchmark does is the parameter `Benchmarks` over any type of states of the world.
--   Saved: the validity test and the reading of src/lib/run/result_loader.py; what the files hold is
--     given, and the digest is a parameter.
--   Resume, Resume/Manifest: the manifest that src/core/cmd/resume.py reads, and what it decides. JSON
--     values are Trees; the file, the test of its version, privileges and saved results are parameters.
--   Ports: the checks of port numbers in src/lib/networking/network_helpers.py.
--   Registry: ASCTDataRegistry of src/core/datatypes.py, as objects in a heap, since a registry keeps a
--     reference to its parent.
--   Cache, Cache/Results, Cache/Validator: ASCTCache of src/core/cache.py over a table of files, with
--     the exceptions of src/lib/utility/files.py; JSON, hashes and the operating system are the
--     parameter `Host`.
--   Sysdiff, Sysdiff/Runs: the comparison of runs, src/lib/sysdiff: comparators.py, diff_rules.py and
--     manager.py.
--     Values and the arithmetic of floats are the parameter `Python`.
--     Sysdiff/Adapters: the earlier formats of src/lib/sysdiff/adapters.py over Trees; what Python
--     prints and takes for true is a parameter.
--     Sysdiff/Loader, Sysdiff/Loader/Recipes: the entries and the recipes of a run, in
--     src/lib/sysdiff/loader.py. What its files hold is given, parsers are parameters.
--   Progress, Progress/Iteration: ASCTProgressTrackerContainer of src/lib/term_ui/progress_bar.py, with
--     the loop that consumes its generator. A block is shared between the generator and the stack as
--     long as its slot is not emptied.
--     Progress/Benchmark: the loop of a benchmark, in src/core/recipes/recipe_benchmark_base.py.
--   Runner: AsyncRunner of src/core/benchrunner.py as a relation of steps of two threads and a process,
--     which ends after SIGKILL; Runner/Sync: SyncRunner and the collection of results.
--   Env: ProcessMutex and the debug settings of src/core/asct_env.py, and `retry` of
--     src/lib/utility/misc.py without its pauses; the outcomes of the attempts are given.
--   CpuSets: the conversions between lists, masks and sysfs texts in src/lib/sysreport/sr_cpulist.py.
--   CpuInfo: its reader of /proc/cpuinfo, over the lines of the file.
--   Topology, Topology/Caches: its groups of components with their links, and the caches of a CPU.
--     Groups are keyed by their masks, as in the source, and caches by `cache_key`.
--   Sweep: `explore_plateau` of src/core/sweep_algorithm.py over the sizes of the rows; whether a
--     miss rate passes its threshold is a parameter.
--   Iperf3: the settings and command lines of src/core/benchspec/network_benchspec.py, with a reader
--     of options of its own in Iperf3/Options; Iperf3/Output: src/lib/networking/iperf3_parser.py,
--     where json.loads and the arithmetic of floats are parameters.
--   Pmu: the table of events of src/core/asct_pmu_api.py, and how events are chosen and read back.
--   Registers: RegDumper.collect of src/lib/ip_registers/collector.py. The definitions of registers
--     are data, and reading a register changes a state of the device, by a parameter.
--   Numeric: `range_up` of src/lib/utility/numeric.py, whose intermediate steps, floats, are a
--     parameter.
--   Benchspec: ASCTBenchmarkConfig of src/core/benchspec/benchspec.py; what it makes of values that
--     are no natural numbers is a parameter.
--   Each Tests module holds small inputs and applies the theorems to them.
--
-- Fuel: the loop of a range (Config) has one round for each number from its start to its end and
-- one more, which a step of at least 1 does not use up; the loop over the stack of settings
-- (UserConfig) has one round for each value and one more; a range by factors (Numeric) has one for
-- each number up to its end and two more; a walk up the parents (Registry) visits
-- older objects only, so that the place of an object and one more is enough; the topological
-- sorter (Graph) has one for each node, and a node is placed once.
--
-- Not modelled: output to the terminal, logs, plots and reports; reading of hardware and of files;
-- the recipes themselves; the vendored CMN tools; arithmetic on floats and decimals; locks but the one of
-- AsyncRunner, since the methods that take one run under it from start to end.
mod Prelude
pub mod Dict
pub mod Text
pub mod CpuSets
pub mod Graph
pub mod Resources
pub mod Config
pub mod HugePages
pub mod Trees
pub mod UserConfig
pub mod Recipes
pub mod Registers
pub mod Run
pub mod Saved
pub mod Resume
pub mod Ports
pub mod Registry
pub mod Benchspec
pub mod Cache
pub mod Sysdiff
pub mod Progress
pub mod Runner
pub mod Env
pub mod Topology
pub mod Pmu
pub mod Numeric
pub mod Iperf3
pub mod Sweep
pub mod CpuInfo
