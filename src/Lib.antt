-- ===== src/Lib.antt =====
-- zvolrescue: the parsers and the address arithmetic of a ZFS recovery tool.
--
-- The development models the crate crates/zfs-ondisk, which does no I/O, the objects of the crate
-- crates/zfs-read and the reads of the crate crates/zvolrescue-io. Every parser takes a byte slice,
-- and hostile input has to end in a value or in an error. Byte slices are lists of numbers, and
-- machine words are native numbers whose wrap-around, saturation and masking of shift amounts are
-- written out (Prelude/Words.antt), as the release profile computes them.
--
-- Ondisk/Bytes.antt: Endian::u64_at and the byte orders (src/lib.rs of the crate), ParseError
--   (src/error.rs). Bytes/Laws and Bytes/Words read back what was written.
-- Ondisk/Dva.antt: the data virtual address (src/blkptr.rs).
-- Ondisk/Codes.antt: the codes of compressions and checksums (src/blkptr.rs).
-- Ondisk/BlkPtr.antt: the block pointer and the gang block header (src/blkptr.rs, with
--   ot::is_encrypted of src/dmu.rs). Parsed, Payload, Gang: what the parsers return.
-- Ondisk/Compress.antt: decompression (src/compress.rs). The decoders of the crates lz4_flex, flate2
--   and ruzstd are the record Decoders, a parameter of which nothing is assumed. The loop of lzjb
--   has a round for each byte of output, that of zle one for each byte of input: a round writes, or
--   reads, one at least. Sizes, Lzjb, Zle, Total: the sizes of the outputs, matches and runs.
-- Ondisk/Indirect.antt: the mapping of a removed vdev (src/indirect.rs). remap is a loop on rounds,
--   one for each byte of the read, which is enough since every round places a byte at least.
--   Sorted, Lookup: the array and its binary search, of which the model is the number of entries
--   that pass from the front, as partition_point documents. Remap, Cover: what the segments place
--   and where translation fails. Parse: the records.
-- Ondisk/SpaceMap.antt: the allocator's log (src/spacemap.rs). entries is a loop on rounds, one for
--   each word. Words, Log: the layout of the words and the whole log.
-- Ondisk/Ranges.antt: the set of ranges that a log is replayed into (src/spacemap.rs, Ranges). A
--   vector under construction has its last element in front. Members, Merged, Apply, Canonical,
--   Replay, Queries: which bytes it holds, its invariant, and what the operations do to both.
-- Ondisk/Raidz.antt: the layout of a block on a RAIDZ vdev (src/raidz.rs, map). A division by zero
--   and a slice out of range are none. Layout: the geometry under the bounds IsLayout, in which no
--   word overflows. Sizes, Totals, Places: the columns.
-- Ondisk/Uberblock.antt: the uberblock, its ring and the choice of the best (src/uberblock.rs).
--   Parsed: what the slots parse to. Best: the maximum, and which of equal ones.
-- Ondisk/Checksum.antt: block checksums and those embedded in labels and gang headers
--   (src/checksum.rs). The hash functions are the record Hashes, a parameter that gives the bytes of
--   a digest. Fletcher: the sums as running sums. Block, Embedded: what verification compares, and
--   sealing.
-- Ondisk/Draid.antt: the layout of a dRAID vdev (src/draid.rs). Table: the seeds and checksums of its
--   permutations. Division by zero and an index out of range are none, words wrap where the release
--   profile wraps them. Shuffle: the generator. Setup: what Config::new accepts. Rows: the columns of
--   a block.
-- Ondisk/Label.antt: where the labels of a vdev lie (src/label.rs).
-- Ondisk/Part.antt: partition tables (src/part.rs). A GUID is its 16 bytes; String::from_utf16 is a
--   parameter. Gpt: what a header and its entries parse to.
-- Ondisk/Geom.antt: GEOM metadata (src/geom.rs). std::str::from_utf8 is a parameter.
--   Magic: the classes.
-- Ondisk/Dnode.antt: dnodes and object sets (src/dmu.rs). Parsed, Objset: what the parsers accept, and
--   why they refuse.
-- Read/Object.antt: the block tree of an object, its bytes, and the dnode array (crates/zfs-read,
--   src/dmu.rs). PoolReader::read_block is a parameter, a function from pointers to data or an error.
--   The loop of read_range has a round for each byte asked for. Tree: where a block is located.
--   Content: what a range of bytes holds. Walk: looking up objects and stepping over them.
-- Io/Medium.antt: the incidents of a run and the policy that stops it (crates/zvolrescue-io,
--   src/medium.rs). Paths, errors and times are numbers, of which only equality of paths is used.
--   Limits: the bounds it keeps.
-- Io/Salvage.antt: reading around what fails (src/lib.rs, salvage and ddrescue::Map). The loops have a
--   round for each byte, which is enough since a round reads one at least. Offsets wrap as the u64 of
--   the source do. Sound: what the buffer holds.
-- Io/Source.antt: a file or device with its recent reads, its map and its guard (src/lib.rs,
--   FileSource). What the file answers is a parameter; the ends of reads wrap, and a slice out of
--   range is the answer panicked. Closed: runs of reads by any sources that
--   share a ledger, as a step relation. Coherent: what the recent reads hold.
--
-- The modules named Runs hold concrete runs. Not modelled: opening files, text input and output,
-- the hash functions, the other formats of the crate zfs-ondisk, the rest of the pool reader
-- crates/zfs-read and the command line tools.
mod Prelude
pub mod Ondisk
pub mod Io
pub mod Read
