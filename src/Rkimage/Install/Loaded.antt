-- ===== src/Rkimage/Install/Loaded.antt =====
-- rkimage.cpp: an installation that ends well has the new loader in /misc.
use ota_backup.Base.{
  ℕ, ◌*◌, ◌≡◌, refl, inl, inr, List, ◌∷◌, Bool, true, false, Bool-cases, if◌then◌else◌, Option,
  none, some, ℤ, pos, negsuc, minus_one, is_zero, int_equal, take, drop, length, subst, zero, suc,
}
use ota_backup.Image.Path.{str_equal}
use ota_backup.Rkimage.Read.{OpenFile}
use ota_backup.Rkimage.Items.{ImageItem, ImageHeader, find_item, read_source}
use ota_backup.Rkimage.Target.{Target}
use ota_backup.Rkimage.Target.Places.{Place, place_of, HasPlaces}
use ota_backup.Rkimage.Loader.Place.{IsOpen, write_loader-IsOpen}
use ota_backup.Rkimage.Copy.Copied.{IsPartition}
use ota_backup.Rkimage.Copy.{parameter_path}
use ota_backup.Rkimage.Copy.Ends.{Ends, write_image-Ends}
use ota_backup.Rkimage.Verify.Ends.{image_compare-Ends}
use ota_backup.Rkimage.Loader.{loader_bytes, write_loader}
use ota_backup.Rkimage.Loader.Held.{Succeeds, HoldsLoader, write_loader-HoldsLoader}
use ota_backup.Rkimage.Install.Words.{
  backup_word, parameter_word, bootloader_word, misc_path, external_sd, update_bootloader,
}
use ota_backup.Rkimage.Install.{
  InstallCalls, Installed, then_with, ended, write_item_to, compare_item, unless_failed,
  write_checked, finish_install, handle_update_script, run_script, update_recovery, update_backup,
  update_system, update_boot, update_parameter, install_image,
}

-- There is a result, of which `P` holds.
abbrev pub OnResult : {D : Type 0} → (Installed D → Type 0) → Option (Installed D) → Type 0
OnResult P none = ⊥
OnResult P (some r) = P r

Succeeds-zero :
    {D : Type 0} (P : D → Type 0) (p : ℤ × D) → is_zero (p.0) ≡ true → Succeeds P p → P (p.1)
Succeeds-zero P (pos zero, d) e s = s
Succeeds-zero P (pos (suc n), d) e s = cc
Succeeds-zero P (negsuc n, d) e s = cc

module _ (D : Type 0) (target : Target D) (contents : Place → D → List ℕ) (is_open : D → Place)
    (at : D → ℕ) (places : HasPlaces D target is_open)
    (is : IsPartition D target (λ d. contents (is_open d) d) at) (calls : InstallCalls D)
    (has_memory loader : Bool) (hdr : ImageHeader) (stack : List ℕ) (f : OpenFile) where
  -- The device of /misc holds, at 48 KB, the loader that is made of the item "bootloader" of the image.
  abbrev pub InMisc : D → Type 0
  InMisc d =
      (i : ImageItem) × (bytes : List ℕ) × (find_item hdr bootloader_word ≡ some i)
      × (loader_bytes (take i.size (drop i.offset f.content)) ≡ some bytes)
      × (take (length bytes) (drop (48 * 1024) (contents (place_of target misc_path) d)) ≡ bytes)

  -- Success without a restart: the flag for the loader is set, and the loader is in /misc.
  abbrev pub Loaded : Installed D → Type 0
  Loaded r = r.result ≡ pos 0 → r.rebooted ≡ false → (r.if_update_loader ≡ true) × InMisc r.world

  failed-Loaded : (d : D) → OnResult Loaded (ended target calls minus_one loader d)
  unfolding ended
  failed-Loaded d e = cc

  then_with-Loaded :
      (o : Option (ℤ × D)) (rest : ℤ → D → Option (Installed D))
      → Ends o
      → ((r : ℤ) (d : D) → OnResult Loaded (rest r d))
      → OnResult Loaded (then_with target calls o rest)
  unfolding then_with
  then_with-Loaded none rest e h = absurd e
  then_with-Loaded (some (r, d)) rest e h = h r d

  write_item_to-Ends :
      (name path : List ℕ) (d : D)
      → Ends (write_item_to target calls false has_memory loader hdr stack (some f) name path d)
  unfolding write_item_to
  write_item_to-Ends name path d = write_image-Ends D target hdr stack (some f) name path (pos 0) d

  compare_item-Ends :
      (name path : List ℕ) (d : D)
      → Ends (compare_item target calls false has_memory loader hdr stack (some f) name path d)
  unfolding compare_item
  compare_item-Ends name path d =
      image_compare-Ends D target has_memory hdr stack (some f) name path (pos 0) d

  unless_failed-Loaded :
      (r : ℤ) (d : D) (next : Option (Installed D))
      → (is_zero r ≡ true → OnResult Loaded next)
      → OnResult Loaded (unless_failed target calls r loader d next)
  unfolding unless_failed
  unless_failed-Loaded r d next h = elim (Bool-cases (is_zero r)) [
    | inl ok ↦ rw ok (h ok)
    | inr bad ↦ rw bad (failed-Loaded d)
  ]

  finish_install-Loaded :
      (d : D)
      → OnResult Loaded (finish_install target calls false has_memory loader hdr stack (some f) d)
  unfolding finish_install ended
  finish_install-Loaded d =
      unless_failed-Loaded _ d1 _
        (λ set. unless_failed-Loaded p.0 p.1 _ (λ ok e r. (refl, in_misc ok)))
    where
      d1 : D
      d1 = (calls.set_message bootloader_word update_bootloader d).1

      p : ℤ × D
      p = write_loader target hdr (some f) bootloader_word misc_path (pos (3 * 16 * 1024)) d1

      in_misc : is_zero p.0 ≡ true → InMisc p.1
      in_misc ok =
          let held =
            Succeeds-zero
              (HoldsLoader D target (λ d. contents (is_open d) d) at is hdr f bootloader_word
                (48 * 1024))
              p ok
              (write_loader-HoldsLoader D target (λ d. contents (is_open d) d) at is hdr f
                bootloader_word misc_path (48 * 1024) d1) in
          let open_place =
            Succeeds-zero (IsOpen D target is_open places (place_of target misc_path)) p ok (
              write_loader-IsOpen D target is_open places hdr f bootloader_word misc_path
                (pos (48 * 1024)) d1) in
          (
            held.0,
            held.1,
            held.2,
            held.3,
            subst (λ place. take (length held.1) (drop (48 * 1024) (contents place p.1)) ≡ held.1)
                open_place held.4,
          )

  -- Whatever the script is, the installation goes on.
  handle_update_script-some :
      (i : ImageItem) (d : D)
      → (d1 : D) × (handle_update_script target calls false has_memory loader hdr stack (some f) i d
          ≡ some d1)
  unfolding handle_update_script read_source
  handle_update_script-some i d = picked _ _ _
    where
      picked : (b : Bool) (x y : D) → (d1 : D) × ((if b then some x else some y) ≡ some d1)
      picked true x y = (x, refl)
      picked false x y = (y, refl)

  run_script-Loaded :
      (script : Option ImageItem) (d : D)
      → OnResult Loaded
          (run_script target calls false has_memory loader hdr stack (some f) script d)
  unfolding run_script
  run_script-Loaded none d = finish_install-Loaded d
  run_script-Loaded (some i) d =
      let h = handle_update_script-some i d in
      handled (handle_update_script target calls false has_memory loader hdr stack (some f) i d)
        (h.0) (h.1)
    where
      handled :
          (o : Option D) (d' : D)
          → o ≡ some d'
          → OnResult Loaded (elim o as (λ o. Option (Installed D)) [
            | none ↦ none
            | some d1 ↦ finish_install target calls false has_memory loader hdr stack (some f) d1
          ])
      handled none d' e = cc
      handled (some d1) d' e = finish_install-Loaded d1

  write_checked-Loaded :
      (name : List ℕ) (missing : ℤ → D → Option (Installed D)) (next : D → Option (Installed D))
      (d : D)
      → ((r : ℤ) (d1 : D) → OnResult Loaded (missing r d1))
      → ((d1 : D) → OnResult Loaded (next d1))
      → OnResult Loaded (
          write_checked target calls false has_memory loader hdr stack (some f) name missing next d)
  unfolding write_checked
  write_checked-Loaded name missing next d h k =
      then_with-Loaded _ _ (write_item_to-Ends name (47 ∷ name) d) (λ r d1.
        elim (Bool-cases (int_equal r (negsuc 3))) [
          | inl absent ↦ rw absent (h r d1)
          | inr there ↦ rw there (
              unless_failed-Loaded r d1 _ (λ ok.
                then_with-Loaded _ _ (compare_item-Ends name (47 ∷ name) d1)
                  (λ r' d2. unless_failed-Loaded r' d2 _ (λ ok'. k d2))))
        ])

  update_recovery-Loaded :
      (script : Option ImageItem) (d : D)
      → OnResult Loaded
          (update_recovery target calls false has_memory loader hdr stack (some f) script d)
  unfolding update_recovery
  update_recovery-Loaded script d =
      write_checked-Loaded _ _ _ d (λ r d1. failed-Loaded d1) (run_script-Loaded script)

  update_backup-Loaded :
      (script : Option ImageItem) (d : D)
      → OnResult Loaded
          (update_backup target calls false has_memory loader hdr stack (some f) script d)
  unfolding update_backup
  update_backup-Loaded script d = with_backup (find_item hdr backup_word)
    where
      with_backup :
          (o : Option ImageItem)
          → OnResult Loaded (elim o as (λ o. Option (Installed D)) [
            | none ↦
                update_recovery target calls false has_memory loader hdr stack (some f) script d
            | some i ↦
                write_checked target calls false has_memory loader hdr stack
                  (some f)
                  backup_word
                  (λ r d1. ended target calls minus_one loader d1)
                  (update_recovery target calls false has_memory loader hdr stack (some f) script)
                  d
          ])
      with_backup none = update_recovery-Loaded script d
      with_backup (some i) =
          write_checked-Loaded backup_word (λ r d1. ended target calls minus_one loader d1)
            (update_recovery target calls false has_memory loader hdr stack (some f) script) d
            (λ r d1. failed-Loaded d1) (update_recovery-Loaded script)

  update_system-Loaded :
      (script : Option ImageItem) (d : D)
      → OnResult Loaded
          (update_system target calls false has_memory loader hdr stack (some f) script d)
  unfolding update_system
  update_system-Loaded script d =
      write_checked-Loaded _ _ _ d (λ r d1. update_backup-Loaded script d1)
        (λ d1. unless_failed-Loaded _ _ _ (λ ok. update_backup-Loaded script _))

  update_boot-Loaded :
      (script : Option ImageItem) (d : D)
      → OnResult Loaded
          (update_boot target calls false has_memory loader hdr stack (some f) script d)
  unfolding update_boot
  update_boot-Loaded script d =
      write_checked-Loaded _ _ _ d (λ r d1. update_system-Loaded script d1)
        (update_system-Loaded script)

  update_parameter-Loaded :
      (update_file : List ℕ) (script : Option ImageItem) (d : D)
      → OnResult Loaded (
          update_parameter target calls false has_memory loader hdr stack
            (some f)
            update_file
            script
            d)
  unfolding update_parameter
  update_parameter-Loaded update_file script d =
      then_with-Loaded _ _ (compare_item-Ends parameter_word parameter_path d) (λ differs d1.
        elim (Bool-cases (is_zero differs)) [
          | inl same ↦ rw same (update_boot-Loaded script d1)
          | inr not_same ↦ rw not_same (
              then_with-Loaded _ _ (write_item_to-Ends parameter_word parameter_path d1) (λ r d2.
                unless_failed-Loaded r d2 _ (λ ok.
                  then_with-Loaded _ _ (compare_item-Ends parameter_word parameter_path d2)
                    (λ r' d3. unless_failed-Loaded r' d3 _ (λ ok' e q. cc)))))
        ])

  -- The installation of a checked image, without board ids and from a file that opens, has a result;
  -- where it is 0 and the machine has not been restarted, the flag for the loader is set and the device of
  -- /misc holds at 48 KB the loader that is made of the image's "bootloader". A device that is opened is
  -- the one that the calls then read and write.
  pub install_image-Loaded :
      (update_file : List ℕ) (script : Option ImageItem) (d : D)
      → OnResult Loaded (
          install_image target calls false has_memory loader hdr stack
            (some f)
            update_file
            script
            d)
  unfolding install_image
  install_image-Loaded update_file script d =
      elim (Bool-cases (str_equal (take 16 update_file) external_sd)) [
        | inl card ↦ rw card (update_parameter-Loaded update_file script d)
        | inr other ↦ rw other (update_boot-Loaded script d)
      ]
