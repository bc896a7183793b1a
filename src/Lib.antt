-- ===== src/Lib.antt =====
-- Mammut, a library to read and set the energy, frequency, topology and tasks of a machine, locally
-- or over a connection: models of its core operations, and what holds of them.
--
-- Parts of the program, and the files that model them:
--   Utils/Msr            class Msr of src/utils.cpp, with include/mammut/utils.hpp: registers and their
--                        bit fields. Used by the clock modulation; the energy counters read registers
--                        whole. The device file is a parameter (`Device`) with the laws of pread and
--                        pwrite.
--   Utils                the vector helpers of include/mammut/utils.hpp (Vectors), the string helpers
--                        (Strings) and class Monitor (Monitor) of src/utils.cpp. Threads in a monitor
--                        are steps of a relation; where a wait on its condition ends is left open.
--   Energy/Msr           class CounterCpusLinuxMsr of src/energy/energy-linux.cpp: `init`, `reset`, the
--                        four getJoules functions and getJoulesComponents. A call takes the registers
--                        at its moment, so a run is a list of register states.
--   Energy/SysFs         class CounterCpusLinuxSysFs of the same file, on the powercap files.
--   Energy/Plug          classes CounterPlugFileLinux and CounterPlugINALinux of the same file.
--   Energy/Counters      class CounterCpus and `processMessage` of src/energy/energy.cpp over the virtual
--                        functions of the counters, the constructor (Local), and the remote counters of
--                        src/energy/energy-remote.cpp against it (Remote).
--   Energy/PowerCaps     class PowerCapperLinux of src/energy/energy-linux.cpp over the library raplcap
--                        (`Raplcap`, with what its successful calls do in `Laws`), and the rollback points of
--                        class Energy.
--   Topology             the constructor of class Topology in src/topology/topology.cpp (Coordinates), its
--                        tree of cores with the lookups (Tree), and the clock modulation of
--                        VirtualCoreLinux in src/topology/topology-linux.cpp (ClockModulation). HotPlug
--                        has the hot plugging of cores and CPUs, and the rollback points of the
--                        topology, over the virtual functions of a core (`VirtualCores`), whose laws
--                        are in `Laws`; HotPlug/Linux is the instance for VirtualCoreLinux. OnePerCore
--                        takes one virtual core of each physical core. IdleLevels has the idle levels,
--                        ProcFiles what is read in /proc, both of
--                        src/topology/topology-linux.cpp; Units looks units up and sets their
--                        utilization core by core.
--   Topology/Remote      the remote classes of src/topology/topology-remote.cpp with the messages of
--                        Messages, and in Process `processMessage` of class Topology over the virtual
--                        functions of its objects (`Host`). Linux is the `Host` of a server on Linux.
--   CpuFreq              class DomainLinux of src/cpufreq/cpufreq-linux.cpp (Domain), and the rollback
--                        points of src/cpufreq/cpufreq.cpp (Rollback). The kernel's files are a parameter
--                        (`Files`), with what is relied on in `Kernel` (Rollback/Writes); a write that the
--                        kernel does not accept is not noticed. Epyc has the branches of the
--                        class for AMD Epyc on the registers, Governors the names of governors, and
--                        Local the constructors, on the files as they are then (`Sysfs`). Machine has the rest of the
--                        domains and the boosting; Remote the messages and stubs of
--                        src/cpufreq/cpufreq-remote.cpp with the constructors (Domains), and
--                        `processMessage` in Process. VoltageTable has the files of voltage tables and
--                        how a domain measures one (Measured), and one for all numbers of cores (Tables).
--   Server               the loop of a servant in src/mammut-server.cpp, over the connection (`Channel`)
--                        and the modules (`Handler`). The remote classes are related to the server's
--                        modules by `told`, which says what an exception becomes for a client.
--   Task/Throttler       class ThrottlerThread of src/task/task-linux.cpp, a thread that shares its state
--                        with its clients under a lock: calls and rounds are steps of a relation.
--   Task/ExecutionUnits  processes and threads of the same file: their file stat, priorities, affinity and
--                        signals. The kernel is a parameter (`System`), with what is relied on in
--                        `Renices` and `AffinityLaws`.
--   Communicator         src/communicator.cpp over a byte channel (`Wire`), and the loops over a socket of
--                        src/communicator-tcp.cpp that make one.
--   Common               shared names, Boolean tests, lists, signed numbers, bits, results.
--
-- An operation is a function of the same name in lower case, on a state record, that gives the new
-- state and the result; one that may throw gives a `Result`. What a call that throws has changed
-- before is kept in the server's loop only. Machine words keep their wrap-around. Energy
-- and percentages, `double` in the source, are counted exactly in a unit each file names.
-- Loops recurse on the list or the count they run over. Fuel is used in `receive_loop`, where the
-- number of bytes wanted is enough since a read that goes on gives one at least, in `digits`, where
-- ten rounds are enough for 32 bits, and in `run` of the server, where one round more than the
-- client's requests is enough. The extraction of numbers from a text goes on for as many rounds as the
-- text has bytes (`extract_all-enough`).
--
-- Not modelled: rounding of `double`; opening, closing and naming of files, devices and sockets; the
-- refresher threads, whose calls are those of a client; the one sample that an AMD Epyc takes for a
-- voltage; the bytes of protobuf, so messages are values; the cap for all sockets, which divides a
-- `double`; the time stamp counter, which only reads a register; the thread that keeps a core busy
-- (`Spinners`); the counters of PAPI, of the Smart Gauge and of the SmartPower2, which are calls of
-- their libraries and devices; the counters of AMESTER, which mix `double` times with the timestamps
-- of another clock; entry points and bindings; the copies of libusb and odroid-smartpower-linux.
pub mod Common
pub mod Communicator
pub mod CpuFreq
pub mod Energy
pub mod Server
pub mod Task
pub mod Topology
pub mod Utils
