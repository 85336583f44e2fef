-- ===== src/Lib.antt =====
-- fbutils: models of the C++ utilities in include/fbu, and what has been proved of them.
--
-- The library is a set of headers that hardly depend on one another. The files:
--
-- * ReadWriteMutex.antt, with ReadWriteMutex/: include/fbu/read_write_mutex.hpp. The three atomics are the
--   record `Monitor`; each method is a function from it to how its stretch under `mMutex` ends
--   (`Exit`). System.antt interleaves any number of uses, with the signals of the two condition
--   variables and spurious wake-ups. Spec.antt has the readers-writer lock that it
--   refines, and Service.antt gives the uses to threads, of which each waits for one thing at a time.
-- * ThreadPool.antt, with ThreadPool/: include/fbu/thread_pool.hpp. The fields are the record `Pool`.
--   System.antt has the program points of `threadExecLoop` and `grabNextJob`, of the owner in
--   `waitForCompletion` and the destructor, and other threads that call `addJob`; since the destructor
--   writes `mTerminate` without the mutex, a worker between its test and its sleep is a point of its
--   own. Spec.antt has the queue of jobs that it refines. JobCounter.antt has the counting of `JobCounter`
--   and `ThreadPoolJobsExecutor`, and Executor.antt, with Executor/, the latter on a pool that others use.
-- * StringUtils.antt, with StringUtils/: include/fbu/string_utils.hpp. The members of `std::string`
--   that it uses come first, then each function as its loop.
-- * Scalar.antt, with Scalar/: the type parameter `T` of the numeric templates, as a record of operations,
--   with the laws of order and of a commutative ring apart. The laws are those of exact arithmetic: what
--   rests on them holds of floating point up to rounding only. Trig.antt has the functions of `<cmath>`.
-- * MathUtils.antt, with MathUtils/: include/fbu/math_utils.hpp. The functions on integers read a word as
--   its 32 bits; Ranges.antt, Angles.antt, Buffers.antt and Polynomials.antt have the templates,
--   Rounding.antt `fastRoundToInt` and Logarithm.antt the logarithms, which read the bits of a number, and
--   Decibels.antt the sums of levels.
-- * Complex.antt, with Complex/: include/fbu/complex.hpp. Field.antt is about the arithmetic, Arrays.antt
--   about the loops over arrays, in which `none` is an access out of bounds, Polar.antt about the polar form.
-- * Vector2.antt and Vector3.antt, with their folders: include/fbu/vector2.hpp and
--   include/fbu/vector3.hpp, with the conversions to and from spherical coordinates.
-- * FileSystem.antt, with FileSystem/: include/fbu/filesystem_utils.hpp and include/fbu/possible_error.hpp.
--   What the system gives for a directory is a parameter; the names are texts as in StringUtils.antt.
-- * ShMem.antt, with ShMem/: include/fbu/shmem.hpp, with the system calls as parameters and those made as
--   a list.
-- * SimpleMeter.antt, with SimpleMeter/: include/fbu/simple_meter.hpp and include/fbu/simple_meter.cpp.
--   System.antt interleaves the atomic accesses of an audio thread with readings, and Component.antt has
--   what the component draws.
-- * MultichannelMeters.antt, with MultichannelMeters/: include/fbu/multichannel_meters.hpp. Growth.antt is
--   about the loops of `updateNumMeters`, Rows.antt about what it leaves, References.antt about any calls.
-- * Base64.antt, with Base64/: include/fbu/base64_utils.hpp; Juce.antt has the methods of JUCE that it and the
--   time limits call, as parameters.
-- * TimeUtils.antt, with TimeUtils/: include/fbu/time_utils.hpp, with the conversions of `sscanf` that it uses.
-- * BuildInfo.antt, a single file: include/fbu/build_info.hpp and include/fbu/build_info.cpp.
-- * TimeLimited.antt, with TimeLimited/: include/fbu/time_limited.hpp, which calls the two before. The settings
--   of a machine are any state that meets what JUCE documents.
-- * Denormals.antt, with Denormals/: include/fbu/denormals.hpp, with the control register as its bits; the
--   computations of a scope may raise the flags of exceptions in it.
-- * StopWatch.antt, with StopWatch/: include/fbu/stopwatch.hpp, with the clock's times as arguments.
-- * LangUtils.antt, with LangUtils/: include/fbu/lang_utils.hpp, with an action as its number.
-- * Tooltip.antt and AzimuthRotary.antt, single files: include/fbu/tooltip_component.hpp;
--   include/fbu/azimuth_rotary.hpp and include/fbu/elevation_rotary.hpp. What JUCE answers is a parameter.
--
-- Numbers: counters of 32 bits wrap at 2 ^ 32; the invariants of the mutex and the pool show that they
-- never do for fewer than 2 ^ 32 uses and 2 ^ 31 workers. Loops over a text take a number of rounds, and
-- the theorems say how many are enough; those of `updateNumMeters` take as many turns as there are channels
-- or components, and leave the number that was asked for;
-- `fast_asin4_3` calls itself at the opposite, which for a number is once.
--
-- Not modelled: thread names, exceptions that a job throws, what JUCE draws, its timers, the rounding of
-- floating point, `OnCopy::operator=`, which returns no value, and `Singleton`, which is one static variable.
pub mod Prelude
pub mod ReadWriteMutex
pub mod ThreadPool
pub mod StringUtils
pub mod Scalar
pub mod MathUtils
pub mod Complex
pub mod Vector2
pub mod Vector3
pub mod FileSystem
pub mod ShMem
pub mod Juce
pub mod Base64
pub mod SimpleMeter
pub mod TimeUtils
pub mod BuildInfo
pub mod TimeLimited
pub mod MultichannelMeters
pub mod Denormals
pub mod StopWatch
pub mod LangUtils
pub mod Tooltip
pub mod AzimuthRotary
