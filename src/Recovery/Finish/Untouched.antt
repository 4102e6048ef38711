-- ===== src/Recovery/Finish/Untouched.antt =====
-- What the steps of finish_recovery leave alone.
use ota_backup.Base.{
  ℕ, max, length, drop, ◌≡◌, refl, ◌∙◌, List, Bool, true, false, not, if◌then◌else◌, Option, none,
  some, inl, inr, Bool-cases,
}
use ota_backup.Recovery.Storage.{
  Storage, StorageLaws, FilePath, Mode, to_read, to_write, to_append, same_path, command_file,
  flag_file, intent_file, locale_file, zero_message, log_file, last_log_file, last_install_file,
  temporary_log_file, temporary_install_file,
}
use ota_backup.Recovery.Finish.Steps.{OnSome}
use ota_backup.Recovery.Finish.{
  Globals, copied, append_log_file, copy_log_file, copy_logs, write_intent, write_locale,
  clear_misc, write_flag, leave, strflag,
}

module _ {W : Type 0} (storage : Storage W) (laws : StorageLaws storage) (f : FilePath) where
  -- Opening a destination and then a source, and writing to the destination.
  step-contents :
      (source destination : FilePath) (mode : Mode) (s : List ℕ) (w : W)
      → same_path destination f ≡ false
      → (let w1 = (storage.fopen_path destination mode w).1 in
          let w2 = (storage.fopen_path source to_read w1).1 in
          (storage.contents f w1 ≡ storage.contents f w)
          × (storage.contents f w2 ≡ storage.contents f w)
          × (storage.contents f (storage.fputs destination s w2) ≡ storage.contents f w))
  step-contents source destination mode s w other =
      let w1 = (storage.fopen_path destination mode w).1 in
      let w2 = (storage.fopen_path source to_read w1).1 in
      let opening = laws.other_opened destination f mode w other in
      let reading = laws.opened_to_read source f w1 ∙ opening in
      (opening, reading, laws.other_put destination f s w2 other ∙ reading)

  pick-contents :
      {A : Type 0} (world : A → W) (w : W) (p q : Bool) (a b c : A)
      → (storage.contents f (world a) ≡ storage.contents f w)
        × (storage.contents f (world b) ≡ storage.contents f w)
        × (storage.contents f (world c) ≡ storage.contents f w)
      → storage.contents f (world (if not p then a else (if not q then b else c)))
        ≡ storage.contents f w
  pick-contents world w false q a b c h = h.0
  pick-contents world w true false a b c h = h.1
  pick-contents world w true true a b c h = h.2

  pub copy_log_file-contents :
      (source destination : FilePath) (w : W)
      → same_path destination f ≡ false
      → storage.contents f (copy_log_file storage source destination w) ≡ storage.contents f w
  unfolding copy_log_file
  copy_log_file-contents source destination w other =
      let w1 = (storage.fopen_path destination to_write w).1 in
      let w2 = (storage.fopen_path source to_read w1).1 in
      let s = copied (storage.contents source w2) in
      pick-contents (λ v. v) w (storage.fopen_path destination to_write w).0
        (storage.fopen_path source to_read w1).0 w1 w2 (storage.fputs destination s w2)
        (step-contents source destination to_write s w other)

  append_log_file-contents :
      (source destination : FilePath) (offset : ℕ) (w : W)
      → same_path destination f ≡ false
      → storage.contents f (append_log_file storage source destination offset w).1
        ≡ storage.contents f w
  unfolding append_log_file
  append_log_file-contents source destination offset w other =
      let w1 = (storage.fopen_path destination to_append w).1 in
      let w2 = (storage.fopen_path source to_read w1).1 in
      let t = storage.contents source w2 in
      let s = copied (drop offset t) in
      pick-contents (λ (r : ℕ × W). r.1) w (storage.fopen_path destination to_append w).0
        (storage.fopen_path source to_read w1).0 (offset, w1) (offset, w2)
        (max offset (length t), storage.fputs destination s w2)
        (step-contents source destination to_append s w other)

  pub copy_logs-contents :
      (offset : ℕ) (w : W)
      → same_path log_file f ≡ false
      → same_path last_log_file f ≡ false
      → same_path last_install_file f ≡ false
      → storage.contents f (copy_logs storage offset w).1 ≡ storage.contents f w
  unfolding copy_logs
  copy_logs-contents offset w log last_log last_install =
      let w1 = (append_log_file storage temporary_log_file log_file offset w).1 in
      let w2 = copy_log_file storage temporary_log_file last_log_file w1 in
      copy_log_file-contents temporary_install_file last_install_file w2 last_install
      ∙ copy_log_file-contents temporary_log_file last_log_file w1 last_log
      ∙ append_log_file-contents temporary_log_file log_file offset w log

  put-contents :
      (g : FilePath) (s : List ℕ) (w : W)
      → same_path g f ≡ false
      → storage.contents f (storage.fputs g s (storage.fopen_path g to_write w).1)
        ≡ storage.contents f w
  put-contents g s w other =
      laws.other_put g f s (storage.fopen_path g to_write w).1 other
      ∙ laws.other_opened g f to_write w other

  pub write_intent-contents :
      (intent : Option (List ℕ)) (w : W)
      → same_path intent_file f ≡ false
      → storage.contents f (write_intent storage intent w) ≡ storage.contents f w
  unfolding write_intent
  write_intent-contents none w other = refl
  write_intent-contents (some s) w other =
      elim (Bool-cases (storage.fopen_path intent_file to_write w).0) [
        | inl opened ↦ rw opened (put-contents intent_file s w other)
        | inr failed ↦ rw failed (laws.other_opened intent_file f to_write w other)
      ]

  pub write_locale-contents :
      (locale : Option (List ℕ)) (w : W)
      → same_path locale_file f ≡ false
      → OnSome (λ w'. storage.contents f w' ≡ storage.contents f w) (write_locale storage locale w)
  unfolding write_locale
  write_locale-contents none w other = refl
  write_locale-contents (some s) w other =
      elim (Bool-cases (storage.fopen_path locale_file to_write w).0) [
        | inl opened ↦ rw opened (put-contents locale_file s w other)
        | inr failed ↦ rw failed tt
      ]

  pub clear_misc-contents :
      (need_clear_misc : Bool) (w : W)
      → storage.contents f (clear_misc storage need_clear_misc w) ≡ storage.contents f w
  unfolding clear_misc
  clear_misc-contents true w = laws.contents_set f zero_message w
  clear_misc-contents false w = refl

  pub write_flag-contents :
      (g : Globals) (w : W)
      → same_path flag_file f ≡ false
      → OnSome (λ w'. storage.contents f w' ≡ storage.contents f w) (write_flag storage g w)
  unfolding write_flag
  write_flag-contents g w other =
      pick g.auto_update_complete (storage.fopen_path flag_file to_write w).0
    where
      w' : W
      w' =
          storage.fputs flag_file (strflag g.updatepath) (storage.fopen_path flag_file to_write w).1

      pick :
          (p q : Bool)
          → OnSome
              (λ w'. storage.contents f w' ≡ storage.contents f w)
              (if not p then some w else (if q then some w' else none))
      pick false q = refl
      pick true true = put-contents flag_file (strflag g.updatepath) w other
      pick true false = tt

  pub leave-contents :
      (g : Globals) (w : W)
      → same_path command_file f ≡ false
      → storage.contents f (leave storage g w).world ≡ storage.contents f w
  unfolding leave
  leave-contents g w other =
      laws.contents_unmount f (storage.unlink_file command_file w).1
      ∙ laws.other_unlinked command_file f w other
