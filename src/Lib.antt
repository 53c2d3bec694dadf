-- ===== src/Lib.antt =====
-- CipherFS: an encrypted, read-only container of a directory tree, with tools to pack, verify, extract and
-- mount it. This library models the core of the program and proves what makes it correct.
--
-- The parts and the files that model them:
-- * V2 (crates/cipherfs-core/src/v2.rs): the container format. V2/Types has the constants and records;
--   V2/Limits `validate_header_basic`, `validate_argon2` and `encrypted_file_size`; V2/Crypto the wrappers
--   of the primitives; V2/Aad the associated data and nonces; V2/Keys the key slots and `unlock`;
--   V2/Container the header on disk; V2/Password `change_password` and `wipe_for_duress`; V2/Names
--   `validate_name`; V2/Index `validate_index`; V2/Chunk `decrypt_chunk`, with `open` in V2/Chunk/Opening
--   and `verify` in V2/Chunk/Verify.
-- * Operation (crates/cipherfs-core/src/operation.rs): error kinds, the cancellation token, progress.
--   Operation/World is the environment of one operation: the bytes of the container file, whether the
--   system refuses the next writes and syncs, the answers of the token at the next checks, and the events reported.
-- * Pack (crates/cipherfs-core/src/pack.rs): Pack/Scan is `scan_source`, from the walk of a directory to the
--   entries of an index; Pack/Encrypt is `encrypt_source_file`, which fills the container; Pack/Build is
--   `pack_inner`, with the temporary file and its commit in Pack/Build/Output, over the
--   files that it can see by their absolute paths.
-- * SafeFs (crates/cipherfs-core/src/safe_fs.rs): the tree below a staging directory, with `SafeRoot` as a
--   whole in SafeFs/Staging. Extract (crates/cipherfs-core/src/extract.rs): `extract_v2_inner`, which
--   opens a container through V2 and builds such a tree.
-- * ReadOnly (crates/cipherfs-core/src/readonly_fs.rs): lookup, directories and ranges of files, over the
--   cache of decrypted chunks in ReadOnly/ChunkCache.
-- * Format (crates/cipherfs-core/src/format.rs, layout.rs): `detect` and `require_v2`. Threads (parallel.rs):
--   the default number of workers. WindowsNames (windows_names.rs): `needs_mapping` and `mapped_name`.
-- * Fuse (crates/cipherfs-fuse/src/lib.rs): the replies of the FUSE adapter, made from ReadOnly.
-- * Shell (apps/cipherfs-windows-shell/src): the page controller of controller.rs and the frames of
--   protocol.rs, between the shell and its worker.
-- * Base and Errors are shared: lists, words and maps; fallible results. Examples applies the theorems.
--
-- How code becomes definitions. A fallible function returns `Result`, whose errors are chains of causes as
-- `anyhow` has them; texts that the code formats with a number or a path are kept without it. Code that
-- writes, reports or asks for cancellation is in the monad `Op` over `World`. `u64` and `u32` values are
-- native numbers; each checked, saturating or wrapping operation is written out at its width. Names and
-- paths are byte strings. A `HashMap` is an association list without repeated keys, and its order is one
-- order in which the map may be walked. Loops are structural recursion over the list or the range that
-- the code goes through, or over a number of rounds that bounds them (the length of the name that
-- `mapped_name` shortens, the digits of a `u64`), so nothing can run out. The loop over the batches of a file
-- takes the number of its chunks as fuel: each batch has a chunk, so that many rounds are enough.
--
-- Concurrency. The parallel loops of packing and verification take the order in which the workers run as a
-- parameter, `PackRun` for packing: the sources one after another in any order, the chunks of a source in
-- any order, and the chunks of the verification in any order over all files. While sources are encrypted,
-- the chunks of different files do not interleave in the model. The chunks of one batch of an extraction are decrypted in their order; the cache's two locked
-- sections are steps that readers may take in any order. A call of a loop's body is one step: two bodies
-- write and report in some order, never half.
--
-- Parameters. The cryptographic primitives (argon2, hkdf, chacha20poly1305, blake3) are the record
-- `Crypto`, the MessagePack encoding is `Codec` and `MessageCodec`; `IsAead`, `IsCodec`, `IsMessageCodec`
-- and `IsHash` state what their documentation promises. Nothing is assumed about secrecy. Random bytes
-- are arguments. What the file system shows and refuses is an argument too: the walk of the source, what
-- stands at the output, and which calls fail.
--
-- Not modelled: the erasure of secrets from memory, system calls and file metadata, a write that fails in
-- the middle, a removal that the system refuses, other processes that change the output directory while
-- packing runs, names that differ only by a slash at their end and so denote one path (they are distinct
-- in the model's tree, where no file can be renamed to such a name), faults that tests inject, the Windows
-- adapter and its map of display names (extraction is modelled on Unix, where names stay as they are), the
-- updater, the user interface, and the command line.
pub mod Base
pub mod Errors
pub mod Examples
pub mod Extract
pub mod Format
pub mod Fuse
pub mod Operation
pub mod Pack
pub mod ReadOnly
pub mod SafeFs
pub mod Shell
pub mod Threads
pub mod V2
pub mod WindowsNames
