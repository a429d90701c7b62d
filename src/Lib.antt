-- ===== src/Lib.antt =====
-- A verification library for flocate, a locate with file metadata and a change history.
--
-- updatedb walks the file system in the order of dir_path_cmp, asks sorted lists which
-- directories to prune, and writes a database: compressed blocks of file names, an index from
-- trigrams to blocks, the metadata of each file and the history of changes. A search breaks the
-- pattern into trigrams, intersects their posting lists, and compares the names in the blocks
-- that are left. flocate-showdiff reads the metadata and the history back.
--
-- The files:
-- - Prelude: names of the libraries, Boolean tests on natural numbers, lists of bytes, and
--   signed machine integers as integers that fit (Prelude/Int), stored as words.
-- - Bytes: the little-endian writers and readers of src/metadata_codec.cpp. A reader's result
--   tells apart a value, a refusal and a read past the end of the buffer.
-- - Metadata: include/metadata.h, the structures (`FileMetadata`, `HistoryEvent`),
--   `metadata_equals` and `metadata_diff_fields`.
-- - Codec: src/metadata_codec.cpp, `encode_metadata_record`, `metadata_record_size`,
--   `decode_metadata_record` and the history streams. Pointers `ptr` and `end` are the bytes
--   between them.
-- - DirPath: src/lib.cpp, `dir_path_cmp` and `string_list_contains_dir_path`; `*idx` is passed
--   in and returned.
-- - Trigram: the case-sensitive part of src/parse_trigrams.cpp with include/parse_trigrams.h
--   and the structures of include/db.h that it needs, and `unescape_glob_to_plain_string` of
--   src/needle.cpp. Trigram/Match says on its own what strstr and fnmatch accept.
-- - Corpus: src/database-builder.cpp, the file name block of `EncodingCorpus::add_file` and the
--   trigrams that `EncodingCorpus::flush_block` takes out of it.
-- - Hash: src/metadata_hash.cpp, the streaming `XxHash64State` and `Sha256State`,
--   `MetadataHashBuilder` and `compute_file_hash_at`. What the system calls return is an
--   argument, and a member that is not initialised holds any value.
-- - HashTable: `create_hashtable` of src/database-builder.cpp, `hash_trigram` of include/db.h
--   and `Corpus::find_trigram` of src/flocate.cpp.
-- - Serializer: src/serializer.cpp, where results that complete in any order are put in the
--   order of their sequence numbers.
-- - Locate: src/flocate.cpp, the intersection of the posting lists, `scan_file_block`,
--   `scan_docids` and the receiver of a worker thread, which hands its results to the
--   serializer. Matching and the test that a file can be seen are arguments.
-- - BindMount: src/bind-mount.cpp, the fields of mountinfo, the mounts that are pruned and the
--   bind mounts that are kept.
-- - AccessCache: src/access_rx_cache.cpp, `check_access` without asynchronous calls. The cache
--   is passed on.
-- - Pfor: the posting list codec of include/turbopfor-encode.h and src/turbopfor.cpp: single
--   values (Pfor/Values), bit packing (Pfor/Bits) and in four interleaved streams
--   (Pfor/Interleaved), the block formats (Pfor/Blocks, Pfor/Bitmap) and the choice among them
--   (Pfor/Choice). The 32-bit accumulator limits packing without interleaving to 25 bits a
--   value, since up to 7 bits wait in it. An exception width that is not set is an argument,
--   `unset`.
-- - PostingList: `PostingListBuilder` of src/database-builder.cpp and `decode_pfor_delta1` of
--   src/turbopfor.cpp. PostingList/Index has the lists of all trigrams, which `flush_block`
--   fills.
-- - Showdiff: src/showdiff.cpp, `diff_snapshots`, `EventFilter`, `extract_paths_from_block` and
--   `parse_conf_block`, and `gen_conf_block` of src/conf.cpp. The C library's `toupper` and
--   `to_string` are parameters.
-- - UpdatedbConf: src/conf.cpp, the configuration file: `uc_lex`, the loop of
--   `parse_updatedb_conf` on the contents of the file, and the readers of values. An exit
--   carries the line that is reported. UpdatedbConf/Lines says what the lines of a file mean.
-- - Size: include/parse_size.h, with `strtoull` and `toupper` as parameters.
-- - History: `trim_history_runs` of src/updatedb.cpp.
--
-- Unsigned integers are natural numbers, and a conversion to fewer bits is written out as a
-- remainder. A loop over a buffer runs on fuel: one round for each byte and one more. Each
-- round consumes a byte at least, and a theorem says that the loop returns. Inserting a trigram
-- into the hash table takes at most as many rounds as there are slots behind its bucket; the
-- theorem on create_hashtable shows that this is enough.
--
-- Compression, file and kernel interfaces, memory allocation, wide characters, and the options,
-- signals and threads of the programs are not modelled.
pub mod Prelude
pub mod Bytes
pub mod Metadata
pub mod Hash
pub mod Codec
pub mod DirPath
pub mod Trigram
pub mod BindMount
pub mod AccessCache
pub mod Corpus
pub mod HashTable
pub mod Serializer
pub mod Locate
pub mod Pfor
pub mod PostingList
pub mod Showdiff
pub mod UpdatedbConf
pub mod History
pub mod Size
