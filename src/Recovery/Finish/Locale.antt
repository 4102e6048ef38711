-- ===== src/Recovery/Finish/Locale.antt =====
-- The locale that finish_recovery saves is the one that the next run loads.
use ota_backup.Base.{
  ℕ, zero, suc, ◌≡◌, refl, ap, ◌∙◌, subst, ◌≤◌, ◌<◌, arith, List, [], ◌∷◌, ◌++◌, true, false, ◌==◌,
  Option, none, some, length, All, All-map, inl, inr, Bool-cases,
}
use ota_backup.Image.Scan.{is_space}
use ota_backup.Recovery.Text.{fgets, line}
use ota_backup.Recovery.Storage.{Storage, StorageLaws, to_read, to_write, locale_file}
use ota_backup.Recovery.Finish.{
  Globals, Finished, copy_logs, write_intent, write_locale, clear_misc, write_flag, leave,
  finish_recovery, without_spaces, locale_of, load_locale_from_cache,
}
use ota_backup.Recovery.Finish.Logs.{IsText, c_string-IsText}
use ota_backup.Recovery.Finish.Steps.{OnSome, OnSome-map, finish_recovery-OnSome}
use ota_backup.Recovery.Finish.Untouched.{
  copy_logs-contents, clear_misc-contents, write_flag-contents, leave-contents,
}

-- 1 to 79 characters, no white space and no zero among them.
abbrev pub IsLocale : List ℕ → Type 0
IsLocale [] = ⊥
IsLocale (c ∷ s) = (length s < 79) × All (λ x. (is_space x ≡ false) × ((x == 0) ≡ false)) (c ∷ s)

no_newline : (c : ℕ) → is_space c ≡ false → (c == 10) ≡ false
unfolding is_space
no_newline c h = ground arith

line_whole :
    (n : ℕ) (s : List ℕ) → length s ≤ n → All (λ x. is_space x ≡ false) s → line n s ≡ (s, [])
unfolding line
line_whole zero [] h k = refl
line_whole zero (c ∷ s) h k = absurd (omega arith)
line_whole (suc n) [] h k = refl
line_whole (suc n) (c ∷ s) h k = rw (no_newline c k.0, line_whole n s (omega arith) k.1) refl

without_spaces_kept : (s : List ℕ) → All (λ x. is_space x ≡ false) s → without_spaces s ≡ s
unfolding without_spaces
without_spaces_kept [] h = refl
without_spaces_kept (c ∷ s) h = rw h.0 (ap (◌∷◌ c) (without_spaces_kept s h.1))

locale_of-IsLocale : (s : List ℕ) → IsLocale s → locale_of s ≡ some s
unfolding locale_of fgets
locale_of-IsLocale [] h = absurd h
locale_of-IsLocale (c ∷ s) h =
    rw
      (
        line_whole 79 (c ∷ s) (omega (arith, h.0)) spaces,
        c_string-IsText (c ∷ s) zeros,
        without_spaces_kept (c ∷ s) spaces,
      )
      refl
  where
    spaces : All (λ x. is_space x ≡ false) (c ∷ s)
    spaces =
        All-map (λ x. (is_space x ≡ false) × ((x == 0) ≡ false)) (λ x. is_space x ≡ false)
          (λ x k. k.0) (c ∷ s) h.1

    zeros : IsText (c ∷ s)
    zeros =
        All-map (λ x. (is_space x ≡ false) × ((x == 0) ≡ false)) (λ x. (x == 0) ≡ false)
          (λ x k. k.1) (c ∷ s) h.1

module _ {W : Type 0} (storage : Storage W) (laws : StorageLaws storage) where
  write_locale-OnSome :
      (l : List ℕ) (w : W)
      → OnSome (λ w'. storage.contents locale_file w' ≡ l) (write_locale storage (some l) w)
  unfolding write_locale
  write_locale-OnSome l w = elim (Bool-cases (storage.fopen_path locale_file to_write w).0) [
    | inl opened ↦
        let w' = (storage.fopen_path locale_file to_write w).1 in
        rw opened (
          laws.put locale_file l w'
          ∙ ap (λ before. before ++ l) (laws.truncated locale_file w opened))
    | inr failed ↦ rw failed tt
  ]

  finish_recovery_saves :
      (send_intent : Option (List ℕ)) (g : Globals) (l : List ℕ) (w : W)
      → g.locale ≡ some l
      → OnSome {A = Finished W}
          (λ r. storage.contents locale_file r.world ≡ l)
          (finish_recovery storage send_intent g w)
  finish_recovery_saves send_intent g l w is =
      finish_recovery-OnSome storage (λ w1. storage.contents locale_file w1 ≡ l)
        (λ r. storage.contents locale_file r.world ≡ l) send_intent g w
        (rw is (write_locale-OnSome l (write_intent storage send_intent w)))
        (λ w1 saved.
          let (offset, w2) = copy_logs storage g.tmplog_offset w1 in
          let g' : Globals = record g { tmplog_offset = offset } in
          let w2' = clear_misc storage g.need_clear_misc w2 in
          OnSome-map (λ w3. storage.contents locale_file w3 ≡ storage.contents locale_file w2')
            (λ w3. storage.contents locale_file (leave storage g' w3).world ≡ l)
            (write_flag storage g' w2') (write_flag-contents storage laws locale_file g' w2' refl)
            (λ w3 kept.
              leave-contents storage laws locale_file g' w3 refl
              ∙ kept
              ∙ clear_misc-contents storage laws locale_file g.need_clear_misc w2
              ∙ copy_logs-contents storage laws locale_file g.tmplog_offset w1 refl refl refl
              ∙ saved))

  -- The locale that a run ends with is the one that the next run starts with, when none is given: what
  -- finish_recovery saves, load_locale_from_cache reads back, for a locale of 1 to 79 characters without
  -- white space, and a file that opens.
  pub load_locale_from_cache-finish_recovery :
      (send_intent : Option (List ℕ)) (g : Globals) (l : List ℕ) (w : W) (r : Finished W)
      → g.locale ≡ some l
      → IsLocale l
      → finish_recovery storage send_intent g w ≡ some r
      → (storage.fopen_path locale_file to_read r.world).0 ≡ true
      → load_locale_from_cache storage none r.world
        ≡ some (some l, (storage.fopen_path locale_file to_read r.world).1)
  unfolding load_locale_from_cache
  load_locale_from_cache-finish_recovery send_intent g l w r is good finished opens =
      rw
        (
          opens,
          laws.opened_to_read locale_file locale_file r.world,
          kept,
          locale_of-IsLocale l good,
        )
        refl
    where
      kept : storage.contents locale_file r.world ≡ l
      kept =
          subst (OnSome {A = Finished W} (λ r'. storage.contents locale_file r'.world ≡ l)) finished
            (finish_recovery_saves send_intent g l w is)
