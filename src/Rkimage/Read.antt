-- ===== src/Rkimage/Read.antt =====
-- rkimage.cpp: read_file and read_partition.
pub mod Slice
use ota_backup.Base.{
  ℕ, zero, suc, ◌+◌, ◌-◌, ◌*◌, ◌/◌, ◌%◌, List, [], ◌∷◌, ◌++◌, Bool, true, false, ◌==◌, ltb, not,
  if◌then◌else◌, Option, none, some, ℤ, pos, negsuc, minus_one, length, take, drop, memcpy,
}

-- An open file or device: its bytes, and where the next read starts.
pub record OpenFile : Type 0 where
  pub content : List ℕ
  pub position : ℕ

abbrev pub block_size : ℕ
block_size = 512

-- `lseek(fd, offset, SEEK_SET)`.
unfoldable pub seek : ℕ → OpenFile → OpenFile
seek offset f = record f { position = offset }

-- `read(fd, …, size)`: the bytes that it gives, fewer at the end of the file.
unfoldable pub read : ℕ → OpenFile → List ℕ × OpenFile
read size f =
    let got = take size (drop f.position f.content) in
    (got, record f { position = f.position + length got })

-- `if( offset >= 0 ) lseek(…)`.
unfoldable pub seek_to : ℤ → OpenFile → OpenFile
seek_to (pos offset) f = seek offset f
seek_to (negsuc n) f = f

-- `read_file`: the result and what was written to `data`.
unfoldable pub read_file : ℤ → ℕ → OpenFile → ℤ × List ℕ × OpenFile
read_file offset size f =
    let (got, f') = read size (seek_to offset f) in
    if not (length got == size) then (minus_one, got, f') else (pos 0, got, f')

-- The loop `while(remain > 0)` of `read_partition` on fuel; `out` is what was written so far.
pub read_blocks : ℕ → ℕ → List ℕ → OpenFile → Option (ℤ × List ℕ × OpenFile)
read_blocks zero remain out f = none
read_blocks (suc fuel) remain out f =
    let (buf, f') = read block_size f in
    let more = read_blocks fuel (remain - block_size) (out ++ buf) f' in
    let last = read_blocks fuel 0 (out ++ take remain buf) f' in
    if remain == 0
    then some (pos 0, out, f)
    else if not (length buf == block_size)
    then some (minus_one, out, f')
    else if ltb block_size remain
    then more
    else last

-- `read_partition`. `stack` is what the 512 bytes of `buf` happen to hold: the result of the read before
-- the loop is not looked at. `remain` below 0 is a `remain` of 0 for the loop.
pub read_partition : List ℕ → ℤ → ℕ → OpenFile → Option (ℤ × List ℕ × OpenFile)
read_partition stack (negsuc k) size f = read_blocks (size + 1) size [] f
read_partition stack (pos offset) size f =
    let m = offset / block_size in
    let n = offset % block_size in
    let f1 = seek (m * block_size) f in
    let (got, f2) = read block_size f1 in
    let buf = memcpy stack 0 got (length got) in
    let aligned = read_blocks (size + 1) size [] f1 in
    let unaligned =
      read_blocks (size + 1) (size - (block_size - n)) (take (block_size - n) (drop n buf)) f2 in
    if n == 0 then aligned else unaligned
