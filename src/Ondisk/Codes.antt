-- ===== src/Ondisk/Codes.antt =====
-- crates/zfs-ondisk/src/blkptr.rs: the codes of compressions and checksums.
use zvolrescue.Prelude.{ℕ, ◌-◌}
use zvolrescue.Prelude.{◌≡◌, arith}
use zvolrescue.Prelude.{Bool, true, false, ◌||◌}
use zvolrescue.Prelude.{leb, ◌==◌, if◌then◌else◌}

-- `gzip` carries its level, `unknown` the code.
pub data Compression : Type 0 where
  off empty lzjb : Compression
  gzip : ℕ → Compression
  zle lz4 zstd : Compression
  unknown : ℕ → Compression

-- `Compression::from_code`.
unfoldable pub compression_of : ℕ → Compression
compression_of c =
    if leb c 2
    then off
    else if c == 3
    then lzjb
    else if c == 4
    then empty
    else if leb c 13
    then gzip (c - 4)
    else if c == 14
    then zle
    else if c == 15
    then lz4
    else if c == 16
    then zstd
    else unknown c

-- `unknown_sum` is `Checksum::Unknown`.
pub data Checksum : Type 0 where
  unsummed label gang_header zilog fletcher2 fletcher4 sha256 no_parity sha512 skein edonr blake3 :
      Checksum
  unknown_sum : ℕ → Checksum

-- `Checksum::from_code`.
unfoldable pub checksum_of : ℕ → Checksum
checksum_of c =
    if leb c 2
    then unsummed
    else if c == 3
    then label
    else if c == 4
    then gang_header
    else if c == 5 || c == 9
    then zilog
    else if c == 6
    then fletcher2
    else if c == 7
    then fletcher4
    else if c == 8
    then sha256
    else if c == 10
    then no_parity
    else if c == 11
    then sha512
    else if c == 12
    then skein
    else if c == 13
    then edonr
    else if c == 14
    then blake3
    else unknown_sum c

-- `Checksum::code`.
unfoldable pub code : Checksum → ℕ
code unsummed = 2
code label = 3
code gang_header = 4
code zilog = 5
code fletcher2 = 6
code fletcher4 = 7
code sha256 = 8
code no_parity = 10
code sha512 = 11
code skein = 12
code edonr = 13
code blake3 = 14
code (unknown_sum c) = c

-- `Checksum::dedup_capable`.
unfoldable pub dedup_capable : Checksum → Bool
dedup_capable sha256 = true
dedup_capable sha512 = true
dedup_capable skein = true
dedup_capable blake3 = true
dedup_capable _ = false

-- A code comes back as the least code of its class: 0 and 1 as 2, the second ZIL variant 9 as 5,
-- every other code as itself.
pub code-checksum_of :
    (c : ℕ) → code (checksum_of c) ≡ (if leb c 2 then 2 else if c == 9 then 5 else c)
unfolding code checksum_of
code-checksum_of c = ground arith
