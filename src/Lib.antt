-- ===== src/Lib.antt =====
-- nvbandwidth measures the bandwidth of copies between host and GPU memory. `main` checks the options
-- and runs test cases; a test case hands pairs of buffers to a memcpy operation, which takes samples:
-- an initiator fills the buffers with a pattern, launches the copy, and compares the destination with
-- the pattern of the source; the time of the copy gives a bandwidth, a statistic collects the samples,
-- and in a multinode run the processes put their results together.
--
-- The files and the code that they model:
-- - Config: the constants of common.h and the sizes of the C++ types.
-- - Kernel/Memory, Kernel/Grid: buffers as functions from 32-bit words, element loads and stores
--   (`smCopyLoad`, `smCopyStore` of kernels.cu), and launches as orders of threads. A thread runs to its
--   end before the next one; every order that has each thread of the grid at least once is admitted.
-- - Kernel/Simple, Kernel/Striding, Kernel/SplitWarp: `simpleCopyKernel`, `stridingMemcpyKernel`,
--   `splitWarpCopyKernel` and `memclearKernelByWarpParity` of kernels.cu.
-- - Kernel/Pattern: `xorshift2MBPattern`, `memsetPatternHelper`, `cpuMemsetPatternHelper` and
--   `memcmpPatternHelper` of memcpy.cpp with `memsetKernel` and `memcmpKernel` of kernels.cu.
-- - Kernel/Launch: `launchCopyKernel`, `copyKernel` and `copyKernelSplitWarp` of kernels.cu.
-- - Kernel/HostRead: `simpleHostReadKernel`, `stridingHostReadKernel` and `hostReadKernel` of kernels.cu,
--   their loops over any accumulator, of which that of the code is one and a count of reads another.
-- - Kernel/Multicast: `multicastCopyKernel` and `multicastCopy` of kernels.cu.
-- - Initiator: the initiators of memcpy.cpp and memcpy.h, and one verified sample of
--   `MemcpyOperation::doMemcpyCore`.
-- - Chase: the rings of nodes that `latencyHelper` and `bandwidthPtrChaseHelper` of testcase.cpp make;
--   Chase/Latency and Chase/Bandwidth have `latencyPtrChaseKernel` and `bandwidthPtrChaseKernel` of
--   kernels.cu with the kernels that follow the pointers.
-- - Spin: the spin kernels of kernels.cu as steps, and the streams of a process that `doMemcpyCore`
--   blocks and releases.
-- - Bandwidth: the bandwidth of a sample in `doMemcpyCore`.
-- - Double, Statistic: `PerformanceStatistic` of common.h, over any type with the operations of double.
-- - Options: the validation of the options in `main` of nvbandwidth.cpp.
-- - Multinode: `dispatchMemcpy`, `calculateVectorBandwidth` and `calculateFirstBandwidth` of
--   `NodeHelperMulti` in multinode_memcpy.cpp, from all ranks at once.
-- - Pairs: `generateTestPairs` of multinode_memcpy.cpp; Pairs/Exchange is its end, which sends the
--   pairs to all ranks.
-- - Matrix: `PeerValueMatrix` of inline_common.h. Summary: what its output operator and `JsonOutput` compute
--   from the cells.
-- - Buffers: the objects of memcpy.h and multinode_memcpy.h that the test cases make and delete, on a
--   heap of addresses, and the vectors of pointers that a measurement is given.
-- - Operation: `doMemcpyCore` of memcpy.cpp with `NodeHelperSingle`, from the times to the values, and in
--   Operation/Ended when it returns them, throws, or ends the process by the ASSERT on a comparison.
-- - Testcase: the loops of the test cases, over a heap and the matrices. Testcase/Host, Testcase/Peer and
--   Testcase/Star have the `run` of the classes of testcases_ce.cpp and testcases_sm.cpp with the helpers
--   of testcase.cpp, Testcase/Multi those of multinode_testcases.cpp; the definitions have the names of
--   the classes. Testcase/Chase has the test cases that chase pointers. Testcase/All runs any of them one after the other.
-- - Runner: `findTestcase`, `expandTestcases` and `runTestcase` of nvbandwidth.cpp with the end of `main`,
--   and the statuses that `JsonOutput` of json_output.cpp keeps.
-- - Prelude: shared names and lemmas. Tests: the theorems at concrete inputs.
--
-- Integers are natural numbers with the wrap-around of their C++ type written out. Loops that are not
-- over a count run on fuel: the loops of `stridingMemcpyKernel` on the number of elements of a thread
-- and one more, that of `cpuMemsetPatternHelper` on the number of blocks of 2 MiB and two more; the
-- theorems about these functions have no condition on the fuel, so it is enough. The same holds of the
-- loops of the host-read kernels, on the number of reads of a thread and one more, and of the multicast
-- copy, on the number of words.
--
-- A test case takes how `doMemcpy` ends as a function of the operation and of the copies, which
-- Operation gives for the single node. What it does to its matrices and to its buffers follows the
-- code; the contents of the buffers and the verification are the matter of Initiator. A test case
-- whose measurement throws, or fails its comparison with the pattern, is left early, and the results
-- on test cases have the condition that this does not happen. After an exception the program goes on
-- with the next test case, and the buffers that `allToOneHelper`, `oneToAllHelper`, `allHostHelper`
-- and `allHostBidirHelper` had made stay allocated; this part of the run is not modelled.
--
-- CUDA and MPI are not modelled: their calls succeed, what they report is an argument, a broadcast of
-- MPI is a parameter that hands the root's value to every rank, and a shuffle is one that permutes. Not
-- modelled are the allocation of memory behind a buffer object, the events on streams, the hosts of
-- several processes with their barriers, the environment and the error macros, which are calls of those
-- libraries; the loads that bypass caches, the multicast comparison and the signals to a profiler; json/, a
-- copy of another project's library; the scripts; the filters of testcase.cpp; and the messages of the output.
pub mod Bandwidth
pub mod Buffers
pub mod Chase
pub mod Config
pub mod Double
pub mod Initiator
pub mod Kernel
pub mod Matrix
pub mod Multinode
pub mod Operation
pub mod Options
pub mod Pairs
pub mod Prelude
pub mod Runner
pub mod Spin
pub mod Statistic
pub mod Summary
pub mod Testcase
pub mod Tests
