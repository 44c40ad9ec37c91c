-- ===== src/Lib.antt =====
-- A model of the C++ implementation of vost, a versioned file system over a git repository.
--
-- The program. A snapshot (Fs, cpp/src/fs.cpp) names a commit and its tree and never changes; an
-- operation that writes builds a new tree and a new commit and moves the branch, under a lock, if
-- the branch still names the snapshot's commit. Paths are normalised and patterns matched by
-- cpp/src/paths.cpp and cpp/src/glob.cpp, trees are read and rebuilt by cpp/src/tree.cpp, the
-- lock is cpp/src/lock.cpp, and a batch (cpp/src/batch.cpp) stages changes for one commit. A store
-- (cpp/src/gitstore.cpp) opens the repository and gives its branches and tags as dictionaries of
-- snapshots; notes (cpp/src/notes.cpp) are texts on objects, in a tree of their own. Backups
-- (cpp/src/mirror.cpp) compare the references of two repositories, and bundles carry them in a file.
--
-- The files.
--   Common, Common/*     shared names, tests, lists, strings as lists of bytes, sorted maps
--   Error, Types         cpp/include/vost/error.h and types.h: exceptions, modes, entries, options
--   Paths, Paths/*       cpp/src/paths.cpp: normalize (Split, Normalize), validate_ref_name (RefName)
--   Glob, Glob/*         cpp/src/glob.cpp: fnmatch and glob_match; Spec says what a pattern stands
--                        for without a loop, Stars, Classes and Decides relate the two
--   Exec                 code that changes the repository and may throw: the repository comes back
--                        beside the error, since what was written stays written; Exec/Refused is
--                        about code that throws and changes nothing
--   Platform             libgit2 and flock as a record of calls; Platform/Laws states what the
--                        theorems rely on of them, as named hypotheses; Platform/Host is what
--                        opening a store calls of the file system
--   Tree, Tree/*         cpp/src/tree.cpp: Read (lookup, read_blob, list_tree), Walk (walk_tree,
--                        walk_tree_dirs), Rebuild (rebuild_tree), WriteCommit (write_commit,
--                        read_commit); below Rebuild, Steps takes a run apart, Collect, Inserts and
--                        Kept are about one level, ReadBack and RoundTrip about the whole tree,
--                        Stops and Terminates about the fuel
--   Fs, Fs/*             cpp/src/fs.cpp and cpp/src/lock.cpp: Commit (commit_changes and the lock),
--                        Read, Glob (iglob), Write (write, apply, remove, move, rename), History
--                        (parent, back, undo, redo), Log (log, squash); Steps takes a run of
--                        commit_changes apart, Advance has what it leaves behind, RoundTrip
--                        reads back what was written, LogBounds is about log, Undo about undo and
--                        back, and ReadOnly about the snapshots that may not be written, in Copy
--                        and Batch too
--   Batch, Batch/*       cpp/src/batch.cpp: Staging, Tidy and Runs are about what is staged
--   Store, Store/*       cpp/src/gitstore.cpp: Open (GitStore::open), RefDict, and GitStore's fs and
--                        read_by_hash in Store itself; Refs and Frozen are about the dictionaries,
--                        Lookup about names and hashes
--   Notes, Notes/*       cpp/src/notes.cpp: Tree (find_note, iter_notes, build_note_tree), Namespace
--                        (NoteNamespace), Batch (NotesBatch); Names, Fanout, Cleared, Fanless and
--                        Updates follow one note through build_note_tree, Refines and Build all of
--                        it, Commits, Spaces, Reads and RoundTrip are about set, del and get, and
--                        Staging about the batch
--   Copy, Copy/*         cpp/src/copy.cpp: Filters (matches_filters, ExcludeFilter), Disk (what is read
--                        of the local disk), In (copy_in, sync_in), FromRef (copy_from_ref);
--                        Excludes is about the filters, DryRun and Nested about copy_in and sync_in
--   Mirror, Mirror/*     cpp/src/mirror.cpp: Refs (diff_refs, the resolution of names), Urls, Bundle
--                        (the header of a bundle); Diffs and Names are about Refs, RoundTrip about
--                        the header
--   Samples, Samples/*   the theorems at concrete values, and a repository in memory (Store) that
--                        satisfies the laws of libgit2 (StoreLaws)
--
-- How the code is read. A std::string is a list of bytes, a std::map a list sorted by key, an
-- exception an error value. The bytes of a pattern compare as signed chars, as on x86-64. A loop
-- over a container is structural. A sum of two size_t wraps around at 2 ^ 64. Recursions that follow
-- objects run on fuel: rebuild gets more than the lengths of all paths added up, and each level
-- takes one segment of some path; fnmatch gets one more than the length of the pattern, and each
-- round takes a byte of it; walk_tree_dirs,
-- iglob and log take their fuel as an argument, for the depth of the tree or the length of the
-- history. The attempts at the lock until its deadline are given by the platform. The texts that
-- libgit2 and the operating system add to an error are left out, as are the numbers in the message
-- for an unsupported mode and the path of the lock file.
--
-- Not modelled: the mutexes, since a run is that of one thread; read_text, write_text and
-- write_from_file of Fs and FsWriter, which wrap modelled operations; disk_glob; pack and
-- gc of a store, which hand the objects to libgit2; copy_out and sync_out, which write the
-- local disk; of cpp/src/mirror.cpp, the calls that list, push, fetch and pack references, what
-- backup and restore make of them, and the credentials. What a call that throws leaves on the disk
-- when a store is created is not followed.
-- The length of a hash is not part of the model, but where notes.cpp tests for 40 digits.
pub mod Common
pub mod Error
pub mod Types
pub mod Paths
pub mod Glob
pub mod Exec
pub mod Platform
pub mod Tree
pub mod Fs
pub mod Store
pub mod Notes
pub mod Copy
pub mod Mirror
pub mod Batch
pub mod Samples
