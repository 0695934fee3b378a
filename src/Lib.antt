-- ===== src/Lib.antt =====
-- The core of the SEAM virtual machine of Alice ML: the words of its store, the data structures on
-- blocks, the scheduler of its threads, and the pickler and the unpickler of its values.
--
-- The parts and their files:
-- * Store models store/. Store/Block is what the data structures use of a block: its size and a
--   memory of words. Store/Header is the header word of store/HeaderOp.hh and store/GCHelper.hh,
--   Store/Pointer the tags of store/PointerOp.hh. Store/MapKey is the template parameter of
--   store/BaseMap.hh with the keys of store/Map.hh and adt/ChunkMap.cc, Store/BaseMap the hash table
--   of store/BaseMap.cc: a chain of nodes is the list of its entries.
-- * Adt models adt/: Adt/Queue is adt/Queue.hh, Adt/Stack is adt/Stack.hh and Adt/DynamicArray is
--   adt/DynamicArray.cc. Memory is a function of the index, as C does not check it, so that a write
--   behind the end of an array can be seen.
-- * Sched models the threads of generic/: Sched/ThreadQueue is generic/ThreadQueue.hh, a client of
--   the queue; Sched/Thread and Sched/Handlers are generic/Thread.hh; Sched/TaskStack is the
--   growth of the stacks of generic/TaskStack.cc with PushFrame of generic/Scheduler.hh;
--   Sched/Transients is generic/Transients.hh with the loop of PointerOp::Deref; Sched/Scheduler is
--   generic/Scheduler.cc and generic/Scheduler.hh with the operations of the transients that wake
--   threads. Its queues are the lists that Sched/ThreadQueue relates to the arrays.
-- * Pickle models generic/Pickler.cc and generic/Unpickler.cc. Pickle itself has the numbers and the
--   bytes of an InputStream. Pickle/Format is what an instruction reads, as a tree of reads with the
--   check for the end of the buffer after each; Pickle/Stream is FillBuffer and the read that is
--   repeated after it. Pickle/Instr has the instructions of generic/Pickle.hh with their reads,
--   Pickle/Heap and Pickle/Frame the words and the UnpickleFrame, Pickle/Machine the cases of
--   UnpickleWorker::Run with StoreAbstraction, ApplyTransform and TransformWorker, and Pickle/Run the
--   loop, for a stream of either kind. Pickle/Check is PickleCheckWorker::Run and Unpack of a string,
--   with the frames that they push on the task stack of Sched/TaskStack,
--   Pickle/Gzip gzip::parse_meta_data. Pickle/Output is the OutputBuffer and Pickle/Write the calls
--   that write an instruction. Pickle/Seen is the table of blocks of the PickleWorker with its
--   arguments, Pickle/Worker its loop, where a frame of the PickleStack is a word and the mark that
--   its parts were visited; Pickle/Save is the StringOutputStream, whose Close returns the
--   string with the sizes that it has, the sorting of the locals and WriteToStream. The heap of the
--   pickler is the one of the unpickler, without a label for what it does not tell apart. Pickle/Tree has the values without sharing, the instructions that
--   make them and what it means that a word stands for one. Pickle/Refine, Pickle/Stream/Whole and
--   Pickle/Run hold what relates a buffer that is filled in pieces to the whole content.
-- * Base holds the names, the lists and the tests on numbers that the others share. Tests holds
--   instances at concrete inputs.
--
-- An operation is a function by clauses from the state to the state, with its result in a pair; a
-- word is its bit pattern on a 32-bit machine. In Adt/Stack and Adt/DynamicArray the arithmetic on
-- indices and sizes wraps at 32 bits. The other indices do not: they stay below the size of a block,
-- which is less than 2 ^ 24 words, and the memory of buffers, strings and heaps is taken to suffice.
-- Store/Block models the allocation of sizes up to MAX_BIGBLOCKSIZE, which InternalAlloc asserts.
-- The runs of the scheduler are the relation Reach of Sched/Scheduler/Reach, whose steps are the
-- turns of Scheduler::Run and the calls that workers, primitives and signal handlers may make.
--
-- The labels of the generated store configuration, the abstract representations that the handlers
-- of concrete ones give, gzread, the handlers of transforms and the
-- component that Broker::Load runs are parameters. What the documentation says of gzread is the
-- record Delivers. The chunk map of the unique strings is a function of the bytes of the key. An
-- access outside of the UnpickleFrame, which only assertions check, is an outcome of its own. A
-- preempted worker goes on where it was, so preemption is not seen in the loop.
--
-- Loops that do not count down have fuel. PutUInt has five rounds, one for each seven of 32 bits.
-- GetUInt has five, and the sixth byte is an outcome of its own. Deref has fuel above the rank of
-- the value. PushFrame has one round more than the words that the stack can still grow by.
-- The loop of the UnpickleWorker has one round more than the bytes left, and a read from a file one
-- fill more. The loop of PutBytes has one
-- round more than the bytes that the buffer is to hold. The loop of the PickleWorker has one round
-- for each integer and chunk, two for each block and one more on a value without sharing, and on
-- every heap at most one more than the measure of Pickle/Worker/Bound; Sort has one round more than entries,
-- and its scans one more than the indices that they can pass. skip_cstr of gzip has at most a round
-- for each byte of the string. The
-- loops over exception handlers have one round for each handler on the stack.
--
-- Not modelled: the heap and the garbage collector, with the rehashing of maps after a collection
-- and the weak maps; frames and backtraces, so that a worker is known by the result it
-- returns; input, output and signals; the debugger, the profiler and the code generator; the
-- header of a pickle in a file, and the output streams on files; the minimizer; the layer of the
-- language itself.
pub mod Base
pub mod Store
pub mod Adt
pub mod Pickle
pub mod Sched
pub mod Tests
