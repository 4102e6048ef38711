-- ===== src/Rkimage/Copy/Pieces.antt =====
-- rkimage.cpp: where the bytes of a buffer that was written stand in a partition.
use ota_backup.Base.{
  ℕ, zero, suc, ◌+◌, ◌-◌, ◌≤◌, ◌≡◌, refl, sym, ap, ◌∙◌, arith, List, [], ◌∷◌, ◌++◌, append_assoc,
  length, take, drop, memcpy, zeros, take-append, drop-append, take_all, length-take, length-append,
  length-replicate, memcpy_cleared,
}

pub taken : {A : Type 0} (r size : ℕ) (xs : List A) → r ≤ size → take r (take size xs) ≡ take r xs
taken zero size xs h = refl
taken (suc r) zero xs h = absurd (omega arith)
taken (suc r) (suc size) [] h = refl
taken (suc r) (suc size) (x ∷ xs) h = ap (◌∷◌ x) (taken r size xs (omega arith))

drop-take : (p s : ℕ) (xs : List ℕ) → drop p (take (p + s) xs) ≡ take s (drop p xs)
drop-take zero s xs = ap (λ n. take n xs) from_zero
  where
    from_zero : 0 + s ≡ s
    from_zero = omega arith
drop-take (suc p) s [] = rw next (nothing s)
  where
    next : suc p + s ≡ suc (p + s)
    next = omega arith

    nothing : (s : ℕ) → ◌≡◌ {A = List ℕ} [] (take s [])
    nothing zero = refl
    nothing (suc s) = refl
drop-take (suc p) s (x ∷ xs) = rw next (drop-take p s xs)
  where
    next : suc p + s ≡ suc (p + s)
    next = omega arith

module _ (p s : ℕ) (xs ys : List ℕ) (same : take (p + s) xs ≡ take (p + s) ys) where
  pub agree_before : take p xs ≡ take p ys
  agree_before =
      sym (taken p (p + s) xs (omega arith))
      ∙ ap (λ l. take p l) same
      ∙ taken p (p + s) ys (omega arith)

  pub agree_behind : (n : ℕ) → n ≤ s → take n (drop p xs) ≡ take n (drop p ys)
  agree_behind n h =
      sym (taken n s (drop p xs) h)
      ∙ ap (λ l. take n l) (sym (drop-take p s xs) ∙ ap (λ l. drop p l) same ∙ drop-take p s ys)
      ∙ taken n s (drop p ys) h

-- A buffer of `s` bytes that begins with `got`.
abbrev pub buffer : ℕ → List ℕ → List ℕ
buffer s got = memcpy (zeros s) 0 got (length got)

module _ (s : ℕ) (got : List ℕ) (fits : length got ≤ s) where
  buffer_padded : (buffer s got) ≡ got ++ zeros (s - length got)
  buffer_padded =
      memcpy_cleared s got (length got)
      ∙ ap (λ l. l ++ zeros (s - length got)) (take_all (length got) got (omega arith))

  pub length-buffer : length (buffer s got) ≡ s
  length-buffer = rw buffer_padded (
      omega (
        arith,
        length-append got (zeros (s - length got)),
        length-replicate {A = ℕ} (s - length got) 0,
      ))

-- It is written at `p` into `xs`.
module _ (p s : ℕ) (xs got : List ℕ) (room : p + s ≤ length xs) (fits : length got ≤ s) where
  pub before_written : take p (memcpy xs p (buffer s got) s) ≡ take p xs
  before_written =
      take-append p (take p xs) (take s (buffer s got) ++ drop (p + s) xs)
        (omega (arith, length-take p xs))

  pub at_written : take (length got) (drop p (memcpy xs p (buffer s got) s)) ≡ got
  at_written =
      ap (λ l. take (length got) l)
        (drop-append p (take p xs) (take s (buffer s got) ++ drop (p + s) xs)
            (omega (arith, length-take p xs))
          ∙ ap (λ l. l ++ drop (p + s) xs)
              (take_all s (buffer s got) (omega (arith, length-buffer s got fits))
                ∙ buffer_padded s got fits)
          ∙ append_assoc got (zeros (s - length got)) (drop (p + s) xs))
      ∙ take-append (length got) got (zeros (s - length got) ++ drop (p + s) xs) refl
