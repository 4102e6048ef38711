-- ===== src/Recovery/Finish/Logged.antt =====
-- The log in /cache holds every part of the temporary log once.
use ota_backup.Base.{
  ℕ, zero, suc, max, ◌≡◌, refl, ◌∙◌, subst, ◌≤◌, arith, List, [], ◌∷◌, ◌++◌, append_assoc, Bool,
  true, false, not, if◌then◌else◌, Option, some, length, take, drop, take-append-drop, take_all,
}
use ota_backup.Recovery.Storage.{
  Storage, StorageLaws, to_read, to_append, log_file, last_log_file, last_install_file,
  temporary_log_file, temporary_install_file,
}
use ota_backup.Recovery.Finish.{
  Globals, Finished, copied, append_log_file, copy_log_file, copy_logs, write_intent, write_locale,
  clear_misc, write_flag, leave, finish_recovery,
}
use ota_backup.Recovery.Finish.Logs.{IsText, copied-IsText}
use ota_backup.Recovery.Finish.Steps.{OnSome, OnSome-both, OnSome-map, finish_recovery-OnSome}
use ota_backup.Recovery.Finish.Untouched.{
  copy_log_file-contents, write_intent-contents, write_locale-contents, clear_misc-contents,
  write_flag-contents, leave-contents,
}

IsText-drop : (n : ℕ) (s : List ℕ) → IsText s → IsText (drop n s)
IsText-drop zero s h = h
IsText-drop (suc n) [] h = h
IsText-drop (suc n) (c ∷ s) h = IsText-drop n s h.1

module _ {W : Type 0} (storage : Storage W) where
  -- The log in /cache is what it was before, and the temporary log up to the offset.
  abbrev pub Logged : List ℕ → ℕ → W → Type 0
  Logged before offset w =
      (storage.contents log_file w ≡ before ++ take offset (storage.contents temporary_log_file w))
      × (offset ≤ length (storage.contents temporary_log_file w))
      × IsText (storage.contents temporary_log_file w)

  Logged-same :
      (before : List ℕ) (offset : ℕ) (w w' : W)
      → storage.contents log_file w' ≡ storage.contents log_file w
      → storage.contents temporary_log_file w' ≡ storage.contents temporary_log_file w
      → Logged before offset w
      → Logged before offset w'
  Logged-same before offset w w' log temporary h = rw (log, temporary) h

  module _ (laws : StorageLaws storage) where
    append_log_file-Logged :
        (before : List ℕ) (offset : ℕ) (w : W)
        → Logged before offset w
        → (let (offset', w') = append_log_file storage temporary_log_file log_file offset w in
            Logged before offset' w')
    unfolding append_log_file
    append_log_file-Logged before offset w h =
        pick (storage.fopen_path log_file to_append w).0
          (storage.fopen_path temporary_log_file to_read w1).0
      where
        w1 : W
        w1 = (storage.fopen_path log_file to_append w).1

        w2 : W
        w2 = (storage.fopen_path temporary_log_file to_read w1).1

        s : List ℕ
        s = storage.contents temporary_log_file w2

        w3 : W
        w3 = storage.fputs log_file (copied (drop offset s)) w2

        opened : Logged before offset w1
        opened =
            Logged-same before offset w w1 (laws.appended log_file w)
              (laws.other_opened log_file temporary_log_file to_append w refl) h

        found : Logged before offset w2
        found =
            Logged-same before offset w1 w2 (laws.opened_to_read temporary_log_file log_file w1)
              (laws.opened_to_read temporary_log_file temporary_log_file w1) opened

        end : max offset (length s) ≡ length s
        end = omega (arith, found.1)

        kept : storage.contents temporary_log_file w3 ≡ s
        kept = laws.other_put log_file temporary_log_file (copied (drop offset s)) w2 refl

        whole : storage.contents log_file w3 ≡ before ++ take (max offset (length s)) s
        whole =
            laws.put log_file (copied (drop offset s)) w2
            ∙ rw
                (
                  copied-IsText (drop offset s) (IsText-drop offset s found.2),
                  found.0,
                  end,
                  take_all (length s) s (omega arith),
                  append_assoc before (take offset s) (drop offset s),
                  take-append-drop offset s,
                )
                refl

        wrote : Logged before (max offset (length s)) w3
        wrote = rw kept (whole, omega (arith, end), found.2)

        pick :
            (p q : Bool)
            → (let r : ℕ × W =
                  if not p
                  then (offset, w1)
                  else if not q
                  then (offset, w2)
                  else (max offset (length s), w3) in
                Logged before r.0 r.1)
        pick false q = opened
        pick true false = found
        pick true true = wrote

    copy_logs-Logged :
        (before : List ℕ) (offset : ℕ) (w : W)
        → Logged before offset w
        → Logged before (copy_logs storage offset w).0 (copy_logs storage offset w).1
    unfolding copy_logs
    copy_logs-Logged before offset w h =
        Logged-same before offset' w2 w3
          (copy_log_file-contents storage laws log_file temporary_install_file last_install_file w2
            refl)
          (copy_log_file-contents storage laws temporary_log_file temporary_install_file
            last_install_file w2 refl)
          (Logged-same before offset' w1 w2
            (copy_log_file-contents storage laws log_file temporary_log_file last_log_file w1 refl)
            (copy_log_file-contents storage laws temporary_log_file temporary_log_file last_log_file
              w1 refl)
            (append_log_file-Logged before offset w h))
      where
        offset' : ℕ
        offset' = (append_log_file storage temporary_log_file log_file offset w).0

        w1 : W
        w1 = (append_log_file storage temporary_log_file log_file offset w).1

        w2 : W
        w2 = copy_log_file storage temporary_log_file last_log_file w1

        w3 : W
        w3 = copy_log_file storage temporary_install_file last_install_file w2

    -- Logs and temporary log together.
    abbrev Same : W → W → Type 0
    Same w w' =
        (storage.contents log_file w' ≡ storage.contents log_file w)
        × (storage.contents temporary_log_file w' ≡ storage.contents temporary_log_file w)

    both_kept :
        (before : List ℕ) (offset : ℕ) (w w' : W)
        → Same w w'
        → Logged before offset w
        → Logged before offset w'
    both_kept before offset w w' same h = Logged-same before offset w w' same.0 same.1 h

    finish_recovery-stays :
        (send_intent : Option (List ℕ)) (g : Globals) (before : List ℕ) (w : W)
        → Logged before g.tmplog_offset w
        → OnSome {A = Finished W}
            (λ r. Logged before r.globals.tmplog_offset r.world)
            (finish_recovery storage send_intent g w)
    unfolding leave
    finish_recovery-stays send_intent g before w h =
        finish_recovery-OnSome storage (Same w0)
          (λ r. Logged before r.globals.tmplog_offset r.world) send_intent g w
          (OnSome-both (λ v. storage.contents log_file v ≡ storage.contents log_file w0)
            (λ v. storage.contents temporary_log_file v ≡ storage.contents temporary_log_file w0)
            (write_locale storage g.locale w0)
            (write_locale-contents storage laws log_file g.locale w0 refl)
            (write_locale-contents storage laws temporary_log_file g.locale w0 refl))
          (λ w1 same.
            let (offset, w2) = copy_logs storage g.tmplog_offset w1 in
            let g' : Globals = record g { tmplog_offset = offset } in
            let w2' = clear_misc storage g.need_clear_misc w2 in
            let logged =
              copy_logs-Logged before g.tmplog_offset w1
                (both_kept before g.tmplog_offset w0 w1 same start) in
            OnSome-map
              (λ w3.
                (storage.contents log_file w3 ≡ storage.contents log_file w2')
                × (storage.contents temporary_log_file w3
                    ≡ storage.contents temporary_log_file w2'))
              (λ w3. Logged before offset (leave storage g' w3).world) (write_flag storage g' w2')
              (OnSome-both (λ v. storage.contents log_file v ≡ storage.contents log_file w2')
                (λ v.
                  storage.contents temporary_log_file v ≡ storage.contents temporary_log_file w2')
                (write_flag storage g' w2') (write_flag-contents storage laws log_file g' w2' refl)
                (write_flag-contents storage laws temporary_log_file g' w2' refl))
              (λ w3 kept.
                Logged-same before offset w2 (leave storage g' w3).world
                  (leave-contents storage laws log_file g' w3 refl
                    ∙ kept.0
                    ∙ clear_misc-contents storage laws log_file g.need_clear_misc w2)
                  (leave-contents storage laws temporary_log_file g' w3 refl
                    ∙ kept.1
                    ∙ clear_misc-contents storage laws temporary_log_file g.need_clear_misc w2)
                  logged))
      where
        w0 : W
        w0 = write_intent storage send_intent w

        start : Logged before g.tmplog_offset w0
        start =
            Logged-same before g.tmplog_offset w w0
              (write_intent-contents storage laws log_file send_intent w refl)
              (write_intent-contents storage laws temporary_log_file send_intent w refl) h

    -- finish_recovery keeps the log in /cache in step with the temporary log: at every return the log
    -- is what it was at the start of the program, followed by the temporary log up to `tmplog_offset`,
    -- so that no part of it is there twice, however often finish_recovery is called. The temporary log
    -- holds no zero byte.
    pub finish_recovery-Logged :
        (send_intent : Option (List ℕ)) (g : Globals) (before : List ℕ) (w : W) (r : Finished W)
        → Logged before g.tmplog_offset w
        → finish_recovery storage send_intent g w ≡ some r
        → Logged before r.globals.tmplog_offset r.world
    finish_recovery-Logged send_intent g before w r h finished =
        subst (OnSome {A = Finished W} (λ r'. Logged before r'.globals.tmplog_offset r'.world))
          finished (finish_recovery-stays send_intent g before w h)
