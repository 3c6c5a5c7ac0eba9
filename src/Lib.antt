-- ===== src/Lib.antt =====
-- A verification library for Jackalope, a coverage-guided fuzzer.
--
-- The program. A session (fuzzer.cpp) has a queue of samples and several threads. Each thread takes
-- a job, runs mutated samples in an instrumented target, and looks at the coverage of each run.
-- A sample with new stable coverage is minimized (minimizer.cpp), saved and put into the queue.
-- Sessions on several machines share their samples through a server (server.cpp, client.cpp).
-- Samples are byte buffers (sample.cpp), or, with a grammar (mutators/grammar/grammar.cpp), trees
-- that are encoded in such buffers. A tracker of ranges (rangetracker.cpp) says which bytes of a
-- sample the target has read.
--
-- The files. Each file's first comment names the code that it models.
--   Prelude: numbers, lists, buffers with checked accesses, and the lemmas that the parts share.
--   Sample: class Sample of sample.h. A pointer is an optional allocation. Contents, FirstDiff and
--     Storage hold what the operations do.
--   Trie: class SampleTrie of sample.h, as a refinement of the set of prefixes seen.
--   Ranges: SHMRangeTracker of rangetracker.cpp, over any std::sort.
--   Grammar: the trees of grammar.cpp, their text, and BinaryRW, EncodeSample, DecodeSample and
--     OutputFilter (main.cpp); for these the grammar enters by the set of its symbols' names. Rules
--     (the symbols and rules, GetOrCreateSymbol, AddRulePart), Parser (ParseGrammarLine, Read,
--     CheckGrammar) and Generate (GenerateTree) model how a grammar is read and used. RoundTrip,
--     Pieces, Lines, Complete, Kept and Grammars below Parser, and Derivations, Steps, Expand and
--     Sound below Generate, hold the proofs.
--   Coverage: TinyInst's operations on coverage as an interface with their laws, since the code
--     of that library is not in the repository, and a concrete instance for tests.
--   Fuzzer: Entries and Queue (SampleQueueEntry, CmpEntryPtrs), Schedule (the states of a session,
--     RestoreState), Handout (SynchronizeAndGetJob, JobDone, the critical sections of SaveSample), Threads (RunFuzzerThread: the
--     threads as steps in any order), Stable (RunSample, InterestingSample), Minimizer
--     (SimpleTrimmer, MinimizeSample), Saved (SampleQueueEntry::Save and Load), Magic
--     (MagicOutputFilter). Consistent, Jobs, Invariant, Session, Waiting, Order and
--     Minimized hold the proofs.
--   Crashes: the keeping of crashes in fuzzer.cpp and server.cpp, and CheckFilename.
--   Server: Socket (Read, Write, SendSample, RecvSample, SendString, RecvString), Corpus (GetIndex),
--     Updates (ServeUpdates, OnNewCoverage, the end of ReportNewCoverage), Wire (SendCoverage and
--     RecvCoverage; proofs in Blocks, Room and RoundTrip), ServeReport (ReportNewCoverage as a
--     whole), SavedState (SaveState, RestoreState, and DirJoin of directory.cpp; proof in
--     Restored), Connection (HandleConnection up to its handlers). Transfer, Messages, Index, Log
--     and Reports hold the proofs.
--   Client: GetUpdates and ReportCrash of client.cpp. Sync joins it to the server. Report is its
--     ReportNewCoverage, and Reported joins that to the server's; CrashReport does so for crashes.
--   Mutators: the random choices of prng.h, and the byte, block, splice and dictionary mutators of
--     mutator.cpp. Bounds, Blocks, Insert and Dictionary hold the proofs. Deterministic models the
--     contexts of hot offsets and the deterministic mutators of mutator.cpp (proofs in Pending,
--     Covered, Calls, Effects, Expected and Rounds, and the stage that main.cpp builds in Stage),
--     Combinators the mutators of mutator.h that call others (proofs in Rounds and Sequence), and
--     InRange RangeMutator. A child of a combinator is an argument. Arithmetic is ArithmeticMutator
--     and FlipEndian (proofs in Bytewise and Change).
--
-- How the code is rendered. A C++ object is a record, and an operation gives the new record. A
-- memory access that may leave its allocation gives `none` or `out_of_bounds` there, FATAL gives
-- `fatal`, and the one exception that a check lets happen, of std::string::assign, gives
-- `length_error`; a std::string has fewer than 2^63 characters. malloc does not fail. Numbers are unbounded, and where the code depends on the
-- wrap-around of size_t it is written out. Pointers to queue entries are positions in
-- `all_entries`. What the outside world answers (the clock, files, the target, the peer's bytes and
-- how recv and send cut them) is an argument.
--
-- Fuel. Read and Write use the number of bytes, since each round moves one at least; the search of
-- GetIndex uses the number of entries; DecodeTree uses twice the size of the sample plus 2;
-- MinimizeSample uses the size plus the first step plus 1, since each round lowers size or step;
-- GetUpdates and ReportNewCoverage need one message more than there are samples, and
-- RecvCoverage one more than there are modules; the length of a name bounds the
-- prefixes that GetOrCreateSymbol removes. That this is enough is part of the results below. The
-- loop of GenerateTree for a repetition ends by chance: its fuel is enough when the random numbers
-- end every repetition from some number on.
--
-- Not modelled: SelectMutator, PSelectMutator and RepeatMutator of mutator.h, of
-- which two choose by floating-point numbers; the grammar's mutator and minimizer;
-- the rest of the saved state of the fuzzer; and what is I/O or process control: instrumentation, sample
-- delivery, shared memory, threads and locks (each critical section is one step), options and test
-- programs.
pub mod Prelude
pub mod Sample
pub mod Trie
pub mod Ranges
pub mod Grammar
pub mod Fuzzer
pub mod Coverage
pub mod Server
pub mod Client
pub mod Crashes
pub mod Mutators
