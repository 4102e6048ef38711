-- ===== src/Rkimage/Read/Slice.antt =====
-- Reading by blocks of 512 bytes gives the bytes that were asked for.
use ota_backup.Base.{
  ℕ, zero, suc, ◌+◌, ◌-◌, ◌*◌, ◌/◌, ◌%◌, ◌≤◌, ◌<◌, ◌≡◌, ◌⊎◌, inl, inr, refl, sym, ap, ap₂, ◌∙◌,
  arith, List, [], ◌∷◌, ◌++◌, append_assoc, append-nil, true, false, Bool-cases, ◌==◌, ltb, Option,
  some, ℤ, pos, length, take, drop, memcpy, drop-append, ==→eq, ◌≢◌, length-take, length-drop,
  take_all,
}
use ota_backup.Rkimage.Read.{OpenFile, seek, read, read_blocks, read_partition}

module _ {ℓ} {A : Type ℓ} where
  -- A slice in two.
  pub take_add : (a b : ℕ) (xs : List A) → take (a + b) xs ≡ take a xs ++ take b (drop a xs)
  take_add zero b xs = ap (λ n. take n xs) from_zero
    where
      from_zero : 0 + b ≡ b
      from_zero = omega arith
  take_add (suc a) b [] = rw (next) (none_there b)
    where
      next : suc a + b ≡ suc (a + b)
      next = omega arith

      none_there : (b : ℕ) → ◌≡◌ {A = List A} [] (take b [])
      none_there zero = refl
      none_there (suc b) = refl
  take_add (suc a) b (x ∷ xs) = rw next (ap (◌∷◌ x) (take_add a b xs))
    where
      next : suc a + b ≡ suc (a + b)
      next = omega arith

  pub drop-drop : (a b : ℕ) (xs : List A) → drop a (drop b xs) ≡ drop (b + a) xs
  drop-drop a zero xs = ap (λ n. drop n xs) from_zero
    where
      from_zero : a ≡ 0 + a
      from_zero = omega arith
  drop-drop a (suc b) [] = rw next (none_there a)
    where
      next : suc b + a ≡ suc (b + a)
      next = omega arith

      none_there : (a : ℕ) → ◌≡◌ {A = List A} (drop a []) []
      none_there zero = refl
      none_there (suc a) = refl
  drop-drop a (suc b) (x ∷ xs) = rw next (drop-drop a b xs)
    where
      next : suc b + a ≡ suc (b + a)
      next = omega arith

-- The blocks that `remain` bytes from a position need are there.
abbrev HasBlocks : OpenFile → ℕ → Type 0
HasBlocks f remain = f.position + (remain + 511) / 512 * 512 ≤ length f.content

-- The bytes of a file from a place on.
abbrev pub slice : OpenFile → ℕ → ℕ → List ℕ
slice f at size = take size (drop at f.content)

block_read :
    (f : OpenFile)
    → f.position + 512 ≤ length f.content
    → read 512 f ≡ (slice f f.position 512, record f { position = f.position + 512 })
unfolding read
block_read f h = rw full refl
  where
    full : length (take 512 (drop f.position f.content)) ≡ 512
    full =
        omega (arith, length-take 512 (drop f.position f.content), length-drop f.position f.content)

pub length-slice :
    (f : OpenFile) (at size : ℕ) → at + size ≤ length f.content → length (slice f at size) ≡ size
length-slice f at size h =
    omega (arith, length-take size (drop at f.content), length-drop at f.content)

pub slice-add :
    (f : OpenFile) (at a b : ℕ) → slice f at a ++ slice f (at + a) b ≡ slice f at (a + b)
slice-add f at a b =
    ap (λ r. slice f at a ++ take b r) (sym (drop-drop a at f.content))
    ∙ sym (take_add a b (drop at f.content))

take-slice : (f : OpenFile) (at r size : ℕ) → r ≤ size → take r (slice f at size) ≡ slice f at r
take-slice f at r size h = taken r size (drop at f.content) h
  where
    taken : {A : Type 0} (r size : ℕ) (xs : List A) → r ≤ size → take r (take size xs) ≡ take r xs
    taken zero size xs h = refl
    taken (suc r) zero xs h = absurd (omega arith)
    taken (suc r) (suc size) [] h = refl
    taken (suc r) (suc size) (x ∷ xs) h = ap (◌∷◌ x) (taken r size xs (omega arith))

-- What a read of blocks leaves: success, the bytes behind those before, and some place in the file.
abbrev Gives : List ℕ → Option (ℤ × List ℕ × OpenFile) → Type 0
Gives bytes o = (f : OpenFile) × (o ≡ some (pos 0, bytes, f))

read_blocks-Gives :
    (fuel remain : ℕ) (out : List ℕ) (f : OpenFile)
    → remain < fuel
    → HasBlocks f remain
    → Gives (out ++ slice f f.position remain) (read_blocks fuel remain out f)
unfolding read_blocks
read_blocks-Gives zero remain out f h there = absurd (omega arith)
read_blocks-Gives (suc fuel) zero out f h there =
    (f, ap (λ b. some (pos 0, b, f)) (sym (append-nil out)))
read_blocks-Gives (suc fuel) (suc r) out f h there = elim (Bool-cases (ltb 512 (suc r))) [
  | inl long ↦
      rw (not_done, block_read f (omega arith), length-slice f f.position 512 (omega arith), long)
        (rw (← behind long) (
          read_blocks-Gives fuel (suc r - 512) (out ++ slice f f.position 512) next (ground arith)
            (ground arith)))
  | inr short ↦
      rw (not_done, block_read f (omega arith), length-slice f f.position 512 (omega arith), short)
        (rw (← ended short) (
          read_blocks-Gives fuel 0 (out ++ take (suc r) (slice f f.position 512)) next (omega arith)
            (omega arith)))
]
  where
    not_done : (suc r == 0) ≡ false
    not_done = ground arith

    next : OpenFile
    next = record f { position = f.position + 512 }

    behind :
        ltb 512 (suc r) ≡ true
        → (out ++ slice f f.position 512) ++ slice next next.position (suc r - 512)
          ≡ out ++ slice f f.position (suc r)
    behind long =
        append_assoc out (slice f f.position 512) (slice f (f.position + 512) (suc r - 512))
        ∙ ap (λ b. out ++ b)
            (slice-add f f.position 512 (suc r - 512) ∙ ap (λ n. slice f f.position n) whole)
      where
        whole : 512 + (suc r - 512) ≡ suc r
        whole = ground arith

    ended :
        ltb 512 (suc r) ≡ false
        → (out ++ take (suc r) (slice f f.position 512)) ++ slice next next.position 0
          ≡ out ++ slice f f.position (suc r)
    ended short =
        append-nil (out ++ take (suc r) (slice f f.position 512))
        ∙ ap (λ b. out ++ b) (take-slice f f.position (suc r) 512 (ground arith))

-- The rest of a block from a place inside it.
block_rest :
    (f : OpenFile) (at n : ℕ)
    → n ≤ 512
    → at + 512 ≤ length f.content
    → take (512 - n) (drop n (slice f at 512)) ≡ slice f (at + n) (512 - n)
block_rest f at n h there =
    ap (λ b. take (512 - n) b) behind
    ∙ take_all (512 - n) (slice f (at + n) (512 - n))
        (omega (arith, length-slice f (at + n) (512 - n) (omega arith)))
  where
    whole : n + (512 - n) ≡ 512
    whole = omega arith

    behind : drop n (slice f at 512) ≡ slice f (at + n) (512 - n)
    behind =
        ap (λ b. drop n b) (sym (slice-add f at n (512 - n) ∙ ap (λ k. slice f at k) whole))
        ∙ drop-append n (slice f at n) (slice f (at + n) (512 - n))
            (length-slice f at n (omega arith))

-- A buffer of 512 bytes that a block is read into.
filled :
    (stack block : List ℕ)
    → length stack ≡ 512
    → length block ≡ 512
    → memcpy stack 0 block 512 ≡ block
filled stack block h k = rw (take_all 512 block (omega arith), nothing_left) (append-nil block)
  where
    empty : (xs : List ℕ) → length xs ≡ 0 → xs ≡ []
    empty [] e = refl
    empty (x ∷ xs) e = absurd (omega arith)

    nothing_left : drop (0 + 512) stack ≡ []
    nothing_left = empty (drop (0 + 512) stack) (omega (arith, length-drop (0 + 512) stack))

module _ (stack : List ℕ) (offset size : ℕ) (f : OpenFile) (h : length stack ≡ 512)
    (there : (offset + size + 511) / 512 * 512 ≤ length f.content) where
  abbrev start : ℕ
  start = offset / 512 * 512

  from_start :
      offset % 512 ≡ 0 → Gives (slice f offset size) (read_partition stack (pos offset) size f)
  unfolding read_partition seek
  from_start e =
      rw (is_start, at_start)
        (read_blocks-Gives (size + 1) size [] (record f { position = offset }) (omega arith)
          (omega arith))
    where
      is_start : (offset % 512 == 0) ≡ true
      is_start = ground arith

      at_start : offset / 512 * 512 ≡ offset
      at_start = omega arith

  from_inside :
      offset % 512 ≢ 0
      → 512 - offset % 512 ≤ size
      → Gives (slice f offset size) (read_partition stack (pos offset) size f)
  unfolding read_partition seek
  from_inside ne reach =
      rw
        (
          is_inside,
          block_read (record f { position = start }) (omega arith),
          read_whole,
          filled stack (slice f start 512) h read_whole,
          block_rest f start (offset % 512) (omega arith) (omega arith),
        )
        (rw (← joined_up) (
          read_blocks-Gives (size + 1) (size - (512 - offset % 512))
            (slice f (start + offset % 512) (512 - offset % 512))
            (record f { position = start + 512 }) (omega arith) (omega arith)))
    where
      is_inside : (offset % 512 == 0) ≡ false
      is_inside = ground arith

      read_whole : length (slice f start 512) ≡ 512
      read_whole = length-slice f start 512 (omega arith)

      joined_up :
          slice f (start + offset % 512) (512 - offset % 512)
            ++ slice f (start + 512) (size - (512 - offset % 512))
          ≡ slice f offset size
      joined_up =
          ap₂ (λ i j. slice f i (512 - offset % 512) ++ slice f j (size - (512 - offset % 512)))
            here next
          ∙ slice-add f offset (512 - offset % 512) (size - (512 - offset % 512))
          ∙ ap (λ n. slice f offset n) all
        where
          here : start + offset % 512 ≡ offset
          here = omega arith

          next : start + 512 ≡ offset + (512 - offset % 512)
          next = omega arith

          all : 512 - offset % 512 + (size - (512 - offset % 512)) ≡ size
          all = omega arith

-- Reading from a partition at any offset gives exactly the bytes that stand there: the blocks of 512
-- bytes that hold them are on the device, `buf` has 512 bytes, and at an offset inside a block the bytes
-- that are asked for reach the end of that block at least.
pub read_partition-slice :
    (stack : List ℕ) (offset size : ℕ) (f : OpenFile)
    → length stack ≡ 512
    → (offset + size + 511) / 512 * 512 ≤ length f.content
    → (offset % 512 ≡ 0) ⊎ (512 - offset % 512 ≤ size)
    → (f' : OpenFile) × (read_partition stack (pos offset) size f
        ≡ some (pos 0, take size (drop offset f.content), f'))
read_partition-slice stack offset size f h there (inl e) =
    let r = from_start stack offset size f h there e in (r.0, r.1)
read_partition-slice stack offset size f h there (inr reach) =
    elim (Bool-cases (offset % 512 == 0)) [
      | inl e ↦ from_start stack offset size f h there (==→eq (offset % 512) 0 e)
      | inr ne ↦ from_inside stack offset size f h there (λ e. ground arith) reach
    ]
