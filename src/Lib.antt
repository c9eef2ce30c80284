-- ===== src/Lib.antt =====
-- The core of a repository scanner: which paths a scan selects, and the hashes of what it reads.
--
-- A scan walks a directory tree. For each path the ignore rules decide whether it is selected: the
-- parser turns the lines of ignore files into rules, each rule set indexes its rules by a byte, layers
-- of rule sets from several sources are asked in the order of their strength, and override patterns
-- come before all of them. Rules are matched by the glob matcher, or by a specialised test where the
-- pattern allows one. Watching and caching describe regions of the tree by sets of path prefixes.
-- Contents and ignore sources are identified by hashes.
--
-- The files, and the code that each is about:
--   Common, Common/Lists, Common/Tests: lists, options and tests over native numbers
--   Text, Text/Laws: byte strings with the operations of str; Text/Order: BTreeSet<&str> as a sorted
--     list
--   Path (src/path.rs): is_same_or_descendant, path_covered_by_prefixes, collapse_path_prefixes;
--     Path/Cover and Path/Collapse hold their proofs
--   Glob (src/glob.rs): matches_at, double_star, character_class and escaped_member; Glob/Braces is
--     matches and matches_brace_alternatives, Glob/Braces/Groups reads a group from the text alone, and
--     Groups/Slices, Groups/Loop and Groups/Open compare the two; Glob/Class, Glob/Step, Glob/Memo, Glob/Braces/Laws and
--     Glob/Literal hold the proofs
--   Ignore (src/ignore/mod.rs): the data; Ignore/Matcher (src/ignore/matcher.rs); Ignore/Rules
--     (src/ignore/rules.rs), with proofs in Rules/Best, Rules/Keys, Rules/Indexed and Rules/LastWins;
--     Ignore/Parser (src/ignore/parser.rs); Ignore/Layers (match_rules, match_prepared_rules and
--     candidate_for_base of src/ignore/mod.rs), with proofs in Layers/Below, Layers/Precedence,
--     Layers/Ancestors and Layers/Prepared; Ignore/Overrides (src/ignore/overrides.rs)
--   PathPattern (src/path_pattern.rs): validate; PathPattern/ClassReading relates its classes to those of
--     Glob, PathPattern/ClassErrors and PathPattern/Positions are about its errors
--   Report (src/report/mod.rs, src/file_version.rs): the evidence of a file, reusable
--   Delta (src/delta.rs): merge_files and same_content; Delta/Lookup describes sorted manifests,
--     Delta/Merge holds the proof
--   Content (src/content/bounded.rs): read_bounded; Content/Prefix holds the proof
--   Identity (src/scan_identity.rs, src/scan_finalize.rs): the revision of a report; Identity/Stream is
--     the text that it hashes, Identity/Fields reads its fields, Identity/Unambiguous holds the proof
--   Walk (src/walk_types): the data of the walkers; Walk/Files is what they ask of std::fs, with
--     src/walk_platform.rs, src/hidden.rs and src/stdout.rs on Unix; Walk/Walker and Walk/Construction
--     (src/walker): the state and how it is made; Walk/Visit (src/walk_visit.rs): visit and
--     entry_facts; Walk/Iterate (src/walk_iter.rs): next; Walk/Builder (src/walk_builder.rs): several
--     roots. Walk/Steps and Walk/Made go through the branches once for all proofs, Walk/Handles and
--     Walk/Ends hold the proofs
--   Pull (src/parallel/ordered_pull/mod.rs): the tasks, the reading of a directory and the frames;
--     Pull/Scheduler (src/parallel/ordered_pull/scheduler.rs, src/parallel/ordered_pull/execution.rs):
--     the scheduler and its coordinator. Pull/Refill, Pull/Receive, Pull/Order and Pull/Order/Run hold
--     the proofs
--   FileTypes (src/file_types.rs): the catalog of named patterns; FileTypes/Defaults
--     (src/default_file_types.rs): the table, in three parts; FileTypes/LastWins holds the proofs
--   Limits (src/scan_limits.rs): before_next and apply_total_bytes_limit; Limits/Total holds the proof
--   Cache (src/cache.rs, src/watch.rs): from_report, invalidate, apply_watch_plan and the queries of a
--     plan; Cache/Invalidation holds the proof
--   Hash (src/hash.rs): FingerprintHasher and ContentFingerprint; Hash/Word and Hash/Compress are the
--     words and the compression function, Hash/Absorb, Hash/Stream, Hash/Padding and Hash/Digest the
--     proofs
--   Glob/Samples, Ignore/Samples, Hash/Samples: runs on the inputs of the unit tests
--   Witnesses, Witnesses/Reports, Witnesses/Walks, Witnesses/Pulls,
--     Witnesses/Types: the theorems below at concrete inputs
--
-- State. A string is the list of its bytes. The position table of the glob matcher is passed through
-- Memo explicitly, as is the Hasher; a bucket table of a RuleSet is a function of the byte; a chain of
-- parent layers is a list. Words of 32 and 64 bits are natural numbers with the wrap-around written out.
--
-- Fuel. matches_at runs on the length of the pattern plus that of the value plus one, since each call
-- advances in one of them; matches on the length of the pattern plus one, since each expansion of a
-- group is shorter; the block loop of the hasher on the length of the input; the loop over ancestors on
-- the length of the path; the merge of two manifests on their lengths together; the loops of path
-- patterns on the length of the pattern; the loop of a bounded read on the limit of the content and
-- two, since each round but the last adds to the content. Where a result is an Option because of fuel, none is what
-- running out gives.
--
-- A call of a walker's next runs on fuel above the weight of the walker, which counts the entries down
-- to the maximal depth; without a maximal depth a walk that follows no links ends with its file system,
-- which the model does not say is finite.
--
-- The loop of a wait runs on the number of open tasks, since each result closes one; the coordinator on
-- fuel that a theorem gives for every finite tree.
--
-- Interleaving. Which worker is done next, whether the pool takes a task, whether a thread cancels, how far
-- a cancelled worker gets, whether one panics and whether the receiver listens are functions of a clock
-- that ticks at every hand-over; a theorem about all of them is one about all interleavings.
--
-- Not modelled: the reading of rule files, git settings, threads, sessions, the renames of a delta, the
-- planning of watch events and configuration; the escaping of bytes that are not UTF-8 in
-- src/ignore/parser.rs; the encoding of operating system paths in src/path.rs; the
-- cancel_and_drain of src/parallel/ordered_pull/scheduler.rs, which waits for the workers once nothing is sent
-- any more. The unused capacity of strings and vectors has no counterpart.
pub mod Common
pub mod Text
pub mod Walk
pub mod Pull
pub mod FileTypes
pub mod Path
pub mod Glob
pub mod Ignore
pub mod Hash
pub mod Report
pub mod Delta
pub mod Limits
pub mod Cache
pub mod Identity
pub mod Content
pub mod PathPattern
pub mod Witnesses
