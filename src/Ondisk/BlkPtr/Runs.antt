-- ===== src/Ondisk/BlkPtr/Runs.antt =====
-- Tests and examples of the block pointers.
use zvolrescue.Prelude.{ℕ, ◌+◌, ◌*◌, ◌^◌, ◌≤◌, ◌<◌, min}
use zvolrescue.Prelude.{◌≡◌, refl, ◌⊎◌}
use zvolrescue.Prelude.{true, false, none, some}
use zvolrescue.Prelude.{List, [], ◌∷◌, length, replicate}
use zvolrescue.Prelude.{ok, err}
use zvolrescue.Ondisk.Bytes.{
  little, truncated, slice, from_bytes, from_le_bytes, u64_at, encode_words, to_bytes, to_le_bytes,
}
use zvolrescue.Ondisk.Dva.{from_words, is_empty}
use zvolrescue.Ondisk.Codes.{lz4, compression_of}
use zvolrescue.Ondisk.BlkPtr.{
  BlkPtr, ptr_size, gang_header_size, eck_size, embedded_capacity, pointer_of, parse, is_ciphertext,
  type_is_encrypted, is_encrypted, uses_crypt, is_hole, embedded_payload, parse_gang_header,
}
use zvolrescue.Prelude.{take}
use zvolrescue.Ondisk.BlkPtr.{gather}
use zvolrescue.Ondisk.BlkPtr.Parsed.{pointer_in, parse_total}
use zvolrescue.Ondisk.BlkPtr.Payload.{payload_bytes, embedded_payload-parse}
use zvolrescue.Ondisk.BlkPtr.Gang.{AreAt, parse_gang_header_total}

-- An encrypted level-0 block of file contents, lz4, fletcher4, 128 KiB.
abbrev secret_words : List ℕ
secret_words =
    (2 ^ 32 + 256)
    ∷ 8
    ∷ 0
    ∷ 0
    ∷ 11
    ∷ 12
    ∷ (2 ^ 63 + 2 ^ 61 + 19 * 2 ^ 48 + 7 * 2 ^ 40 + 15 * 2 ^ 32 + 255 * 2 ^ 16 + 255)
    ∷ 0
    ∷ 0
    ∷ 0
    ∷ 77
    ∷ (9 * 2 ^ 32 + 1)
    ∷ 1
    ∷ 2
    ∷ 3
    ∷ 4
    ∷ []

secret_bytes : List ℕ
unfolding encode_words to_bytes to_le_bytes
secret_bytes = encode_words little secret_words

secret : BlkPtr
secret = pointer_in little secret_bytes

secret_test :
    (secret.lsize ≡ 131072) × (secret.birth ≡ 77) × (secret.fill ≡ 1) × (secret.compression ≡ lz4)
unfolding secret secret_bytes pointer_of is_ciphertext type_is_encrypted compression_of from_bytes
    from_le_bytes
secret_test = (refl, refl, refl, refl)

parse-secret : parse secret_bytes little ≡ ok secret
unfolding secret secret_bytes parse u64_at slice
parse-secret = refl

is_encrypted-secret : is_encrypted secret ≡ true
unfolding secret secret_bytes pointer_of is_encrypted uses_crypt is_hole is_empty from_words
    type_is_encrypted from_bytes from_le_bytes
is_encrypted-secret = refl

parse_total_example :
    ((length secret_bytes < ptr_size)
      × (parse secret_bytes little ≡ err (truncated ptr_size (length secret_bytes))))
    ⊎ ((ptr_size ≤ length secret_bytes)
        × (parse secret_bytes little ≡ ok (pointer_in little secret_bytes)))
parse_total_example = parse_total secret_bytes little

-- A payload of five bytes, behind which the property word says that it is one.
inline_bytes : List ℕ
unfolding encode_words to_bytes to_le_bytes
inline_bytes = encode_words little (
    0x1122334455
    ∷ 0
    ∷ 0
    ∷ 0
    ∷ 0
    ∷ 0
    ∷ (2 ^ 63 + 2 ^ 39 + 4 * 2 ^ 25 + 4)
    ∷ 0
    ∷ 0
    ∷ 0
    ∷ 77
    ∷ 0
    ∷ 0
    ∷ 0
    ∷ 0
    ∷ 0
    ∷ [])

inline : BlkPtr
inline = pointer_in little inline_bytes

parse-inline : parse inline_bytes little ≡ ok inline
unfolding inline inline_bytes parse u64_at slice
parse-inline = refl

inline_test : embedded_payload inline ≡ ok (some (0x55 ∷ 0x44 ∷ 0x33 ∷ 0x22 ∷ 0x11 ∷ []))
unfolding inline inline_bytes embedded_payload gather slice pointer_of from_bytes from_le_bytes
inline_test = refl

embedded_payload-parse_example :
    ((inline.embedded ≡ false) × (embedded_payload inline ≡ ok none))
    ⊎ ((inline.embedded ≡ true)
        × (out : List ℕ) × (embedded_payload inline ≡ ok (some out))
        × (out ≡ take inline.psize (payload_bytes (take ptr_size inline_bytes)))
        × (length out ≡ min inline.psize embedded_capacity))
embedded_payload-parse_example = embedded_payload-parse inline_bytes little inline parse-inline

abbrev empty_header : List ℕ
empty_header = replicate 512 0

parse_gang_header_total_example :
    ((length empty_header < gang_header_size)
      × (parse_gang_header empty_header little
          ≡ err (truncated gang_header_size (length empty_header))))
    ⊎ ((gang_header_size ≤ length empty_header)
        × (ps : List BlkPtr) × (parse_gang_header empty_header little ≡ ok ps)
        × AreAt empty_header little 0 ps
        × (3 ≤ length ps)
        × (length ps * ptr_size + eck_size ≤ length empty_header)
        × (length empty_header < (length ps + 1) * ptr_size + eck_size))
parse_gang_header_total_example = parse_gang_header_total empty_header little
