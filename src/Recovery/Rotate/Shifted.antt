-- ===== src/Recovery/Rotate/Shifted.antt =====
-- Rotating the logs moves each of them one place on.
use ota_backup.Base.{
  ℕ, zero, suc, ◌+◌, ◌*◌, ◌≡◌, ◌≢◌, refl, sym, ap, subst, ◌∙◌, arith, List, true, false, ltb, ◌==◌,
  if◌then◌else◌, Option, none, some, inl, inr, Bool-cases, ==→eq,
}
use ota_backup.Recovery.Storage.{FilePath, same_path}
use ota_backup.Recovery.Rotate.{log_name, rotate_last_logs}

abbrev pub or_else {ℓ} : {A : Type ℓ} → Option A → Option A → Option A
or_else none b = b
or_else (some a) b = some a

-- What `rename` does to the files that `file` gives: the new name has the old file, if there is one,
-- the old name has none, and no other file changes.
pub record Renames {W : Type 0} (rename : FilePath → FilePath → W → W)
    (file : FilePath → W → Option (List ℕ)) : Type 0 where
  pub moved :
      (f g : FilePath) (w : W)
      → same_path f g ≡ false
      → file g (rename f g w) ≡ or_else (file f w) (file g w)
  pub emptied : (f g : FilePath) (w : W) → same_path f g ≡ false → file f (rename f g w) ≡ none
  pub other_kept :
      (f g k : FilePath) (w : W)
      → same_path f k ≡ false
      → same_path g k ≡ false
      → file k (rename f g w) ≡ file k w

-- A sequence of logs moved on by one place up to place `max`, where the last one is replaced if there is
-- one to replace it.
abbrev pub moved_on {ℓ} : {A : Type ℓ} → ℕ → (ℕ → Option A) → ℕ → Option A
moved_on zero f i = f i
moved_on (suc n) f zero = none
moved_on (suc n) f (suc i) =
    if ltb i n then f i else if i == n then or_else (f n) (f (suc n)) else f (suc i)

or_else-none {ℓ} : {A : Type ℓ} (a : Option A) → or_else a none ≡ a
or_else-none none = refl
or_else-none (some a) = refl

ltb-suc : (i k : ℕ) → ltb i k ≡ true → ltb i (suc k) ≡ true
ltb-suc i k h = ground arith

ltb_self : (k : ℕ) → (ltb k k ≡ false) × (ltb k (suc k) ≡ true)
ltb_self k = (ground arith, ground arith)

before_end : (i k : ℕ) → ltb i k ≡ true → (i ≢ suc k) × (i ≢ suc (suc k))
before_end i k h = (λ e. ground arith, λ e. ground arith)

behind : (i k : ℕ) → ltb i k ≡ false → (i == k) ≡ false → (ltb i (suc k) ≡ false) × (suc i ≢ suc k)
behind i k h l = (ground arith, λ e. ground arith)

ltb_zero : (i : ℕ) → ltb i 0 ≡ false
ltb_zero i = ground arith

ltb_here : (i k : ℕ) → (i == k) ≡ true → ltb i (suc k) ≡ true
ltb_here i k h = ground arith

suc_not_zero : (i : ℕ) → suc i ≢ 0
suc_not_zero i e = omega arith

not_first : (i : ℕ) → (i == 0) ≡ false → suc i ≢ 1
not_first i h e = ground arith

log_name_differ : (i j : ℕ) → i ≢ j → same_path (log_name i) (log_name j) ≡ false
unfolding log_name
log_name_differ zero zero h = absurd (h refl)
log_name_differ zero (suc j) h = ground arith
log_name_differ (suc i) zero h = ground arith
log_name_differ (suc i) (suc j) h = numbers i j (λ e. h (ap suc e))
  where
    numbers : (i j : ℕ) → i ≢ j → (9 + 2 * suc i == 9 + 2 * suc j) ≡ false
    numbers i j h = ground (arith, h)

behind_end : (i k : ℕ) → (i == suc k) ≡ false → suc i ≢ suc (suc k)
behind_end i k h e = ground arith

-- One step at the far end, and then the places before it.
module _ {ℓ} {A : Type ℓ} (n : ℕ) (f g : ℕ → Option A) (empty : g n ≡ none)
    (end : g (suc n) ≡ or_else (f n) (f (suc n)))
    (same : (j : ℕ) → j ≢ n → j ≢ suc n → g j ≡ f j) where
  moved_on_behind :
      (k i : ℕ)
      → n ≡ suc k
      → ltb i k ≡ false
      → (i == k) ≡ false
      → g (suc i) ≡ moved_on (suc (suc k)) f (suc i)
  moved_on_behind k i e from_k other = elim (Bool-cases (i == suc k)) [
    | inl here ↦ rw ((behind i k from_k other).0, here) (at_end (==→eq i (suc k) here))
    | inr later ↦
        rw ((behind i k from_k other).0, later)
          (same (suc i) (λ q. (behind i k from_k other).1 (q ∙ e))
            (λ q. behind_end i k later (q ∙ ap suc e)))
  ]
    where
      at_end : i ≡ suc k → g (suc i) ≡ or_else (f (suc k)) (f (suc (suc k)))
      at_end q = rw (q, ← e) (end)

  at_first : (i : ℕ) → n ≡ 0 → i ≡ 0 → g (suc i) ≡ or_else (f 0) (f 1)
  at_first i e q =
      subst (λ m. g (suc m) ≡ or_else (f 0) (f 1)) (sym q)
        (subst (λ m. g (suc m) ≡ or_else (f m) (f (suc m))) e end)

  at_last : (k i : ℕ) → n ≡ suc k → i ≡ k → or_else (g k) (g (suc k)) ≡ f i
  at_last k i e q =
      ap (or_else (g k)) (subst (λ m. g m ≡ none) e empty)
      ∙ or_else-none (g k)
      ∙ same k (λ r. not_suc k (r ∙ e)) (λ r. not_suc_suc k (r ∙ ap suc e))
      ∙ ap f (sym q)
    where
      not_suc : (k : ℕ) → k ≡ suc k → ⊥
      not_suc k r = omega arith

      not_suc_suc : (k : ℕ) → k ≡ suc (suc k) → ⊥
      not_suc_suc k r = omega arith

  moved_on_step_at : (m : ℕ) → n ≡ m → (i : ℕ) → moved_on m g i ≡ moved_on (suc m) f i
  moved_on_step_at zero e zero = subst (λ m. g m ≡ none) e empty
  moved_on_step_at zero e (suc i) = elim (Bool-cases (i == 0)) [
    | inl here ↦ rw (ltb_zero i, here) (at_first i e (==→eq i 0 here))
    | inr later ↦
        rw (ltb_zero i, later)
          (same (suc i) (λ q. suc_not_zero i (q ∙ e)) (λ q. not_first i later (q ∙ ap suc e)))
  ]
  moved_on_step_at (suc k) e zero = refl
  moved_on_step_at (suc k) e (suc i) = elim (Bool-cases (ltb i k)) [
    | inl before ↦
        rw (before, ltb-suc i k before)
          (same i (λ q. (before_end i k before).0 (q ∙ e))
            (λ q. (before_end i k before).1 (q ∙ ap suc e)))
    | inr from_k ↦ elim (Bool-cases (i == k)) [
      | inl here ↦ rw (from_k, here, ltb_here i k here) (at_last k i e (==→eq i k here))
      | inr other ↦ rw (from_k, other) (moved_on_behind k i e from_k other)
    ]
  ]

module _ {W : Type 0} (rename : FilePath → FilePath → W → W) (file : FilePath → W → Option (List ℕ))
    (renames : Renames rename file) where
  -- Rotating the logs moves every log one place on: last_log becomes last_log.1, last_log.1 becomes
  -- last_log.2 and so on up to place `max`, where the last one replaces what is there; no log is lost
  -- but that one, and last_log is free.
  pub rotate_last_logs-moved_on :
      (max : ℕ) (w : W) (i : ℕ)
      → file (log_name i) (rotate_last_logs rename max w)
        ≡ moved_on max (λ j. file (log_name j) w) i
  unfolding rotate_last_logs
  rotate_last_logs-moved_on zero w i = refl
  rotate_last_logs-moved_on (suc n) w i =
      rotate_last_logs-moved_on n w' i
      ∙ moved_on_step_at n (λ j. file (log_name j) w) (λ j. file (log_name j) w')
          (renames.emptied (log_name n) (log_name (suc n)) w
            (log_name_differ n (suc n) (suc_differs n)))
          (renames.moved (log_name n) (log_name (suc n)) w
            (log_name_differ n (suc n) (suc_differs n)))
          (λ j p q.
            renames.other_kept (log_name n) (log_name (suc n)) (log_name j) w
              (log_name_differ n j (λ e. p (sym e))) (log_name_differ (suc n) j (λ e. q (sym e))))
          n refl i
    where
      w' : W
      w' = rename (log_name n) (log_name (suc n)) w

      suc_differs : (n : ℕ) → n ≢ suc n
      suc_differs n e = omega arith
