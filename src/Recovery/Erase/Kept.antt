-- ===== src/Recovery/Erase/Kept.antt =====
-- The last logs survive the formatting of /cache.
use mathlib.Core.List.{Memᴰ}
use mathlib.Core.List.Memᴰ
use ota_backup.Base.{
  ℕ, ◌^◌, ◌≡◌, ◌⊎◌, refl, sym, ap, ◌∙◌, subst, List, [], ◌∷◌, ◌++◌, Bool, true, false,
  if◌then◌else◌, take, inl, inr, Bool-cases, All,
}
use ota_backup.Recovery.Storage.{
  Storage, StorageLaws, FilePath, to_read, to_write, same_path, same_path_self, same_path→eq,
  log_file, last_log_file, last_install_file,
}
use ota_backup.Recovery.Finish.Untouched.{copy_logs-contents}
use ota_backup.Recovery.Erase.{
  cache_root, is_cache, Roots, is_last, SavedLogFile, in_memory, saved_log, save_log, save_logs,
  restore_logs, erase_volume,
}

module _ {W : Type 0} (storage : Storage W) (laws : StorageLaws storage) where
  -- The first 512 KB of a file.
  abbrev pub start_of : FilePath → W → List ℕ
  start_of f w = take (2 ^ 19) (storage.contents f w)

  -- Every file in memory is the start of its file in `w`.
  abbrev AreSaved : W → List SavedLogFile → Type 0
  AreSaved w head = All (λ p. p.bytes ≡ start_of p.name w) head

  abbrev IsSaved : FilePath → List SavedLogFile → Type 0
  IsSaved f head = (p : SavedLogFile) × Memᴰ p head × (p.name ≡ f)

  -- Nothing that can be read has changed from `w` to `v`.
  abbrev Unread : W → W → Type 0
  Unread w v =
      ((f : FilePath) → storage.contents f v ≡ storage.contents f w)
      × ((f : FilePath) → (storage.fopen_path f to_read v).0 ≡ (storage.fopen_path f to_read w).0)

  read-Unread : (g : FilePath) (w v : W) → Unread w v → Unread w (storage.fopen_path g to_read v).1
  read-Unread g w v h =
      (λ f. laws.opened_to_read g f v ∙ h.0 f, λ f. laws.opening_kept f g v ∙ h.1 f)

  abbrev Saves : FilePath → W → List FilePath → List SavedLogFile → List SavedLogFile × W → Type 0
  Saves f w names before r =
      AreSaved w r.0
      × Unread w r.1
      × (IsSaved f before → IsSaved f r.0)
      × (Memᴰ f names
          → is_last f ≡ true
          → (storage.fopen_path f to_read w).0 ≡ true
          → IsSaved f r.0)

  -- A file has a stat exactly when it opens.
  abbrev pub AreReadable : Roots W → Type 0
  AreReadable roots =
      (g : FilePath) (v : W) → roots.has_stat g v ≡ (storage.fopen_path g to_read v).0

  save_log_opened :
      (roots : Roots W) (g : FilePath) (before : List SavedLogFile) (v : W)
      → (storage.fopen_path g to_read v).0 ≡ true
      → save_log storage roots g before v ≡ (
        in_memory g (storage.contents g (storage.fopen_path g to_read v).1) ∷ before,
        (storage.fopen_path g to_read v).1,
      )
  unfolding save_log saved_log
  save_log_opened roots g before v opens = rw opens refl

  module _ (roots : Roots W) (readable : AreReadable roots) (f : FilePath) (w : W) where
    absurd_both : {b : Bool} → b ≡ true → b ≡ false → ⊥
    absurd_both p q = cc

    abbrev save_one : FilePath → List SavedLogFile → W → List SavedLogFile × W
    save_one g before v =
        if is_last g
        then (if roots.has_stat g v then save_log storage roots g before v else (before, v))
        else (before, v)

    save_one-Saves :
        (g : FilePath) (before : List SavedLogFile) (v : W)
        → AreSaved w before
        → Unread w v
        → Saves f w (g ∷ []) before (save_one g before v)
    save_one-Saves g before v saved h = elim (Bool-cases (is_last g)) [
      | inl last ↦ elim (Bool-cases (storage.fopen_path g to_read v).0) [
        | inl opens ↦
            rw (last, readable g v ∙ opens, save_log_opened roots g before v opens)
              (
                (ap (take (2 ^ 19)) ((read-Unread g w v h).0 g), saved),
                read-Unread g w v h,
                λ k. (k.0, Memᴰ.tail k.1, k.2),
                λ m is opens'. elim m [
                  | Memᴰ.head e ↦ (
                    in_memory g (storage.contents g (storage.fopen_path g to_read v).1),
                    Memᴰ.head refl,
                    sym e,
                  )
                  | Memᴰ.tail n ↦ absurd (Memᴰ.not-nil n)
                ],
              )
        | inr closed ↦
            rw (last, readable g v ∙ closed)
              (
                saved,
                h,
                λ k. k,
                λ m is opens'. elim m [
                  | Memᴰ.head e ↦ absurd (
                      absurd_both (h.1 f ∙ opens')
                        (subst (λ k. (storage.fopen_path k to_read v).0 ≡ false) (sym e) closed))
                  | Memᴰ.tail n ↦ absurd (Memᴰ.not-nil n)
                ],
              )
      ]
      | inr other ↦ rw other (
        saved,
        h,
        λ k. k,
        λ m is opens. elim m [
          | Memᴰ.head e ↦ absurd (absurd_both is (subst (λ k. is_last k ≡ false) (sym e) other))
          | Memᴰ.tail n ↦ absurd (Memᴰ.not-nil n)
        ],
      )
    ]

    save_logs-Saves :
        (names : List FilePath) (before : List SavedLogFile) (v : W)
        → AreSaved w before
        → Unread w v
        → Saves f w names before (save_logs storage roots names before v)
    unfolding save_logs
    save_logs-Saves [] before v saved h = (saved, h, λ k. k, λ m. absurd (Memᴰ.not-nil m))
    save_logs-Saves (g ∷ names) before v saved h =
        let one = save_one-Saves g before v saved h in
        let next : List SavedLogFile × W = save_one g before v in
        let all = save_logs-Saves names next.0 next.1 one.0 one.1 in
        (
          all.0,
          all.1,
          λ k. all.2 (one.2 k),
          λ m is opens. elim m [
            | Memᴰ.head e ↦ all.2 (one.3 (Memᴰ.head e) is opens)
            | Memᴰ.tail n ↦ all.3 n is opens
          ],
        )

    -- A file that holds its start keeps it, since it is only written with its start again.
    restore_logs-start :
        (saved : List SavedLogFile) (v : W)
        → ((g : FilePath) (u : W) → (storage.fopen_path g to_write u).0 ≡ true)
        → AreSaved w saved
        → (storage.contents f v ≡ start_of f w) ⊎ IsSaved f saved
        → storage.contents f (restore_logs storage roots saved v) ≡ start_of f w
    unfolding restore_logs
    restore_logs-start [] v opens all (inl kept) = kept
    restore_logs-start [] v opens all (inr (p, m, e)) = absurd (Memᴰ.not-nil m)
    restore_logs-start (p ∷ saved) v opens all h =
        rw (opens p.name v) (restore_logs-start saved v' opens all.1 next)
      where
        v' : W
        v' = storage.fputs p.name p.bytes (storage.fopen_path p.name to_write v).1

        put_start : storage.contents p.name v' ≡ start_of p.name w
        put_start =
            laws.put p.name p.bytes (storage.fopen_path p.name to_write v).1
            ∙ ap (λ before. before ++ p.bytes) (laws.truncated p.name v (opens p.name v))
            ∙ all.0

        differ : (g : FilePath) → same_path g f ≡ false → g ≡ f → ⊥
        differ g other e =
            absurd_both (same_path_self f) (subst (λ k. same_path k f ≡ false) e other)

        next : (storage.contents f v' ≡ start_of f w) ⊎ IsSaved f saved
        next = elim (Bool-cases (same_path p.name f)) [
          | inl same ↦ inl (
              subst (λ k. storage.contents k v' ≡ start_of k w) (same_path→eq p.name f same)
                put_start)
          | inr other ↦ elim h [
            | inl kept ↦ inl (
                laws.other_put p.name f p.bytes (storage.fopen_path p.name to_write v).1 other
                ∙ laws.other_opened p.name f to_write v other
                ∙ kept)
            | inr (q, m, e) ↦ elim m [
              | Memᴰ.head e' ↦ absurd (differ p.name other (sym (ap (λ k. k.name) e') ∙ e))
              | Memᴰ.tail n ↦ inr (q, n, e)
            ]
          ]
        ]

    -- A "last" file of /cache other than last_log and last_install keeps its first 512 KB when
    -- erase_volume formats /cache; copy_logs writes those two anew. The file can be read, a file has a
    -- stat exactly when it opens for reading, and the files can be written again behind the format.
    pub erase_volume-start :
        (offset : ℕ)
        → same_path log_file f ≡ false
        → same_path last_log_file f ≡ false
        → same_path last_install_file f ≡ false
        → ((g : FilePath) (u : W) → (storage.fopen_path g to_write u).0 ≡ true)
        → is_last f ≡ true
        → (v : W) → (roots.ensure_path_mounted cache_root v).1 ≡ w
        → Memᴰ f (roots.cache_log_dir w)
        → (storage.fopen_path f to_read w).0 ≡ true
        → storage.contents f (erase_volume storage roots cache_root offset v).2 ≡ start_of f w
    unfolding erase_volume is_cache
    erase_volume-start offset log last_log last_install opens is v mounted member reads =
        rw mounted (
          copy_logs-contents storage laws f 0 restored log last_log last_install
          ∙ restore_logs-start saved.0 formatted opens all.0 (inr (all.3 member is reads)))
      where
        saved : List SavedLogFile × W
        saved = save_logs storage roots (roots.cache_log_dir w) [] w

        all : Saves f w (roots.cache_log_dir w) [] saved
        all = save_logs-Saves (roots.cache_log_dir w) [] w tt (λ g. refl, λ g. refl)

        formatted : W
        formatted =
            (roots.format_volume cache_root (roots.ensure_path_unmounted cache_root saved.1)).1

        restored : W
        restored = restore_logs storage roots saved.0 formatted
