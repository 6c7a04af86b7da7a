-- ===== src/Lib.antt =====
-- libcommunism: cooperative multithreading in user space. A Cothread is a thin shim over a backend,
-- which keeps the cothread's stack and switches contexts; the build selects one backend.
--
-- The program's parts and the files that model them:
--   Cothread           include/libcommunism/Cothread.h, src/Cothread.cpp: the class Cothread, the
--                      globals gCurrent and gReturnHandler, the default return handler. `Runtime`
--                      is their state; `current`, `switch_to`, `destroy`, `construct` and the rest
--                      are the member functions of those names. The backend is a parameter, a
--                      record `Backend` of the calls that Cothread.cpp makes; children: Current,
--                      Chain, Construct (the constructors), Handlers (calls of gReturnHandler), and
--                      Processor, the class over a backend of assembly code, and Places, the class
--                      over a backend that the C library carries out, which the modules `Cothreads`
--                      of the backends use; KernelThreads has one gCurrent for each kernel thread.
--   Impl, Alloc, Span  src/CothreadImpl.h, src/AllocImpl.h: the base class of the backends, the
--                      choice between the object's buffer and the heap, and std::span.
--   Amd64              src/arch/amd64: `Object` has the fields and constants of Common.h, `Common`
--                      the functions of Common.cpp over the ABI's (a record `Abi`), `SysV` those of
--                      SysV.cpp and the code of SysV.S, `Windows` those of Windows.cpp and the code
--                      of Windows.asm, `Returned` what happens behind an entry point that returns.
--   X86                src/arch/x86: Common.h, Common.cpp, with `Platform` for its _WIN32, Fastcall.S,
--                      and Fastcall.asm (in `Masm`).
--   Aarch64            src/arch/aarch64: Common.h, Common.cpp, AAPCS.cpp; `Machine` has the code of
--                      AAPCS.S and the instructions that it uses; `Context` and `Rows` treat the
--                      rows of registers that Switch exchanges, `Switch`, `Entry` and `Threads` what
--                      the code does for one switch, the first switch, and several cothreads, and
--                      `Life` the constructor and the destructor.
--   UContext           src/arch/ucontext: the constructors and the destructor, Prepare() (what it writes
--                      to memory in `Prepare`), the map from ids to entry points (under several kernel threads in `Interleaved`),
--                      EntryStub() (in `Returned`), and switchTo() (in `Switch`).
--   SetJmp             src/arch/setjmp: the constructors and the destructor, Prepare() (its EntryContext
--                      in `prepare_with_context`, the rest in `prepare`), and the signal
--                      handler, both ways out of its sigsetjmp() (the second in `Returned`), and
--                      switchTo() (in `Switch`); `Threads` has Prepare() and the handler under
--                      several kernel threads, one access at a time.
--   Returned           what amd64, x86 and aarch64 do behind an entry point that has returned, side by
--                      side, over the modules `Returned` of those.
--   Start              in Amd64/SysV, Amd64/Windows, X86 and Aarch64: from the constructor to the entry
--                      point.
--   Programs           test/src: basic.cpp and timing.cpp, as functions from each place at which a
--                      program goes on to its next call of switchTo(), run over the class Cothread
--                      and a C library that saves and resumes places.
-- They stand on
--   Base               names of the libraries, Boolean tests on numbers, and `Outcome`: a value, an
--                      exception, std::terminate(), or a use of an object that is not there.
--   Memory, Machine    the words of memory by their addresses, and the part of an x86 processor that
--                      the assembly files use; Machine/Stack and Machine/Switch treat the shape
--                      that their Switch codes share, Machine/Spill the stores below the stack
--                      pointer of Windows.asm, Machine/Cursor and Machine/Frame the first frames,
--                      Machine/Entry and Machine/Kept the way into an entry point, and Machine/Threads
--                      several cothreads on one processor.
--   Saved              rows of calls of switchTo() over a C library that saves and restores places in
--                      the program; UContext and SetJmp fill its interface.
--   Heap               posix_memalign(), _aligned_malloc(), their releases, and new and delete of a
--                      CallInfo or an EntryContext: parameters, with the documented behaviour as laws.
--   Tests              an allocator that satisfies the laws, and inputs for the theorems.
--
-- Bounds and fuel. Sizes and addresses wrap around at the word's modulus, 2 ^ 64 or 2 ^ 32, as in the
-- sources; but for the words of an aarch64 context that Prepare() writes, whose offsets are added
-- without a wrap. Memory is accessed by whole words at multiples of the word size, which the code keeps to.
-- The loop that takes an id in UContext::Prepare() runs on 2 rounds of fuel, which is enough since
-- of two successive ids at most one is 0; where the counter would overflow it has no result. A
-- program of `Programs` runs on as many rounds as it has stretches between two calls, and stops
-- within them.
-- Everything else is structural.
--
-- A cothread's place in a program over the C library is a value of a type that is a parameter: what
-- sigsetjmp() and swapcontext() save is not looked into.
--
-- Not modelled: the _WIN32 branches of UContext and SetJmp, whose calls that platform does not have;
-- interrupts between two instructions; several kernel threads, but for the globals of Cothread.cpp,
-- where each call of switchTo() is one step, for a cothread that no thread is executing, UContext's map from ids to entry points, where each
-- critical section is one, and SetJmp's Prepare(), where each access to what the threads share is
-- one; failures of the two calls that restore the signal state in SetJmp;
-- SIGUSR1 from elsewhere than Prepare(); the text formatting on std::cerr; Catch2, and of the tests
-- the one that only constructs and deletes; the build files.
pub mod Base
pub mod Memory
pub mod Span
pub mod Saved
pub mod Machine
pub mod Heap
pub mod Alloc
pub mod Impl
pub mod Amd64
pub mod X86
pub mod Aarch64
pub mod UContext
pub mod SetJmp
pub mod Programs
pub mod Cothread
pub mod Returned
pub mod Tests
