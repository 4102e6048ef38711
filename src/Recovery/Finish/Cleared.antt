-- ===== src/Recovery/Finish/Cleared.antt =====
-- After finish_recovery the next boot finds no arguments.
use ota_backup.Base.{
  ℕ, zero, suc, ◌-◌, ◌≡◌, refl, ◌∙◌, subst, List, [], Bool, true, false, not, if◌then◌else◌, Option,
  none, some, take,
}
use ota_backup.Recovery.Text.{strtok, skip_delimiters}
use ota_backup.Recovery.Storage.{
  Storage, StorageLaws, BootHeader, to_read, to_write, command_file, flag_file, zero_message,
}
use ota_backup.Recovery.Args.{
  Arguments, if_recovery, from_message, from_file, if_no_args, file_arguments, message_arguments,
  written, Started, get_args,
}
use ota_backup.Recovery.Finish.{
  Globals, Finished, copy_logs, write_intent, write_locale, clear_misc, write_flag, leave, strflag,
  finish_recovery,
}
use ota_backup.Recovery.Finish.Steps.{OnSome, OnSome-any, OnSome-map, finish_recovery-OnSome}

take-nil : (n : ℕ) → take {A = ℕ} n [] ≡ []
take-nil zero = refl
take-nil (suc n) = refl

from_message-zero_message : (h : BootHeader) (a : Arguments) → from_message h zero_message a ≡ a
unfolding from_message if_recovery strtok skip_delimiters
from_message-zero_message h a = rw (take-nil (h.recovery_size - 1)) refl

module _ {W : Type 0} (storage : Storage W) where
  abbrev Clear : Finished W → Type 0
  Clear r =
      (storage.get_bootloader_message r.world ≡ zero_message)
      × (r.unlinked ≡ true → (storage.fopen_path command_file to_read r.world).0 ≡ false)

  module _ (laws : StorageLaws storage) where
    write_flag-message :
        (g : Globals) (w : W)
        → OnSome
            (λ w'. storage.get_bootloader_message w' ≡ storage.get_bootloader_message w)
            (write_flag storage g w)
    unfolding write_flag
    write_flag-message g w = pick g.auto_update_complete (storage.fopen_path flag_file to_write w).0
      where
        w1 : W
        w1 = (storage.fopen_path flag_file to_write w).1

        w2 : W
        w2 = storage.fputs flag_file (strflag g.updatepath) w1

        pick :
            (p q : Bool)
            → OnSome
                (λ w'. storage.get_bootloader_message w' ≡ storage.get_bootloader_message w)
                (if not p then some w else (if q then some w2 else none))
        pick false q = refl
        pick true true =
            laws.get_fputs flag_file (strflag g.updatepath) w1 ∙ laws.get_fopen flag_file to_write w
        pick true false = tt

    leave-Clear :
        (g : Globals) (w : W)
        → storage.get_bootloader_message w ≡ zero_message
        → Clear (leave storage g w)
    unfolding leave
    leave-Clear g w zeroed = (
      laws.get_unmount (storage.unlink_file command_file w).1
          ∙ laws.get_unlink command_file w
          ∙ zeroed,
      laws.unlinked command_file w,
    )

    clear_misc_needed :
        (b : Bool) (w : W)
        → b ≡ true
        → storage.get_bootloader_message (clear_misc storage b w) ≡ zero_message
    unfolding clear_misc
    clear_misc_needed true w e = laws.get_set zero_message w
    clear_misc_needed false w e = cc

    finish_recovery_clears :
        (send_intent : Option (List ℕ)) (g : Globals) (w : W)
        → g.need_clear_misc ≡ true
        → OnSome Clear (finish_recovery storage send_intent g w)
    finish_recovery_clears send_intent g w needed =
        finish_recovery-OnSome storage (λ w1. Unit) Clear send_intent g w
          (OnSome-any (write_locale storage g.locale (write_intent storage send_intent w)))
          (λ w1 _.
            let (offset, w2) = copy_logs storage g.tmplog_offset w1 in
            let g' : Globals = record g { tmplog_offset = offset } in
            let w2' = clear_misc storage g.need_clear_misc w2 in
            OnSome-map
              (λ w3. storage.get_bootloader_message w3 ≡ storage.get_bootloader_message w2')
              (λ w3. Clear (leave storage g' w3)) (write_flag storage g' w2')
              (write_flag-message g' w2')
              (λ w3 kept. leave-Clear g' w3 (kept ∙ clear_misc_needed g.need_clear_misc w2 needed)))

    -- A boot whose message is clear and whose command file does not open.
    get_args-clear :
        (h : BootHeader) (p : List ℕ) (w : W)
        → storage.get_bootloader_message w ≡ zero_message
        → (storage.fopen_path command_file to_read w).0 ≡ false
        → (s : Started W) × (get_args h storage (record { program = p; args = [] }) w ≡ some s)
          × (s.arguments ≡ record { program = p; args = [] })
    unfolding get_args message_arguments if_no_args file_arguments from_file written
    get_args-clear h p w zeroed closed = (
      written h storage zero_message
          (record { program = p; args = [] }, (storage.fopen_path command_file to_read w).1),
      rw (zeroed, from_message-zero_message h (record { program = p; args = [] }), closed) refl,
      refl,
    )

    -- Once finish_recovery has cleared the message and removed the command file, the next boot has no
    -- arguments but those of its own command line: get_args finds none. What else finish_recovery was
    -- to write does not matter.
    pub get_args-finish_recovery :
        (h : BootHeader) (send_intent : Option (List ℕ)) (g : Globals) (w : W) (r : Finished W)
        → g.need_clear_misc ≡ true
        → finish_recovery storage send_intent g w ≡ some r
        → r.unlinked ≡ true
        → (p : List ℕ)
        → (s : Started W) × (get_args h storage (record { program = p; args = [] }) r.world
            ≡ some s)
          × (s.arguments ≡ record { program = p; args = [] })
    get_args-finish_recovery h send_intent g w r needed finished gone p =
        let (zeroed, closed) =
          subst (OnSome Clear) finished (finish_recovery_clears send_intent g w needed) in
        get_args-clear h p r.world zeroed (closed gone)
