-- ===== src/Recovery/Args/Restart.antt =====
-- What get_args wrote into the message gives the same arguments at the next boot.
use ota_backup.Base.{
  ℕ, zero, suc, ◌+◌, ◌-◌, ◌≡◌, ◌≢◌, refl, sym, ap, ◌∙◌, subst, ◌<◌, arith, List, [], ◌∷◌, ◌++◌,
  append-nil, append_assoc, Option, none, some, length, length-append, take_all,
}
use ota_backup.Image.Path.{str_equal}
use ota_backup.Recovery.Text.{◌>>=◌, is_newline, strtok, strlcpy, strlcat, skip_delimiters}
use ota_backup.Recovery.Text.Tokens.{strtok-append}
use ota_backup.Recovery.Storage.{BootHeader, Storage, BootloaderMessage, command_file, read_file}
use ota_backup.Recovery.Args.{
  Arguments, recovery_word, recovery_line, message_args, if_recovery, if_no_args, from_message,
  from_file, file_arguments, message_arguments, add_lines, boot_message, written, Started, get_args,
}
use ota_backup.Recovery.Args.Bounded.{AreArgs, get_args-AreArgs}

-- The lines of the message: every argument with a newline behind it.
abbrev pub lines : List (List ℕ) → List ℕ
lines [] = []
lines (arg ∷ args) = arg ++ (10 ∷ lines args)

-- The arguments fit the message, with "recovery\n" before them and the zero behind.
abbrev pub FitsMessage : BootHeader → List (List ℕ) → Type 0
FitsMessage h args = length recovery_line + length (lines args) < h.recovery_size

strlcat_fits :
    (dst s : List ℕ) (size : ℕ) → length dst + length s < size → strlcat dst s size ≡ dst ++ s
unfolding strlcat
strlcat_fits dst s size h = ap (◌++◌ dst) (take_all (size - 1 - length dst) s (omega arith))

pub add_lines_fits :
    (h : BootHeader) (dst : List ℕ) (args : List (List ℕ))
    → length dst + length (lines args) < h.recovery_size
    → add_lines h dst args ≡ dst ++ lines args
unfolding add_lines
add_lines_fits h dst [] k = sym (append-nil dst)
add_lines_fits h dst (arg ∷ args) k =
    rw
      (
        strlcat_fits dst arg h.recovery_size (omega (arith, added)),
        strlcat_fits (dst ++ arg) (10 ∷ []) h.recovery_size
            (omega (arith, added, length-append dst arg)),
      )
      (add_lines_fits h ((dst ++ arg) ++ (10 ∷ [])) args
          (omega (arith, added, length-append dst arg, length-append (dst ++ arg) (10 ∷ [])))
        ∙ joined)
  where
    added : length (arg ++ (10 ∷ lines args)) ≡ length arg + length (10 ∷ lines args)
    added = length-append arg (10 ∷ lines args)

    joined : ((dst ++ arg) ++ (10 ∷ [])) ++ lines args ≡ dst ++ (arg ++ (10 ∷ lines args))
    joined =
        append_assoc (dst ++ arg) (10 ∷ []) (lines args) ∙ append_assoc dst arg (10 ∷ lines args)

no_token : strtok is_newline [] ≡ none
unfolding strtok skip_delimiters
no_token = refl

-- The lines are read back.
message_args-lines :
    (left : ℕ) (args : List (List ℕ)) → AreArgs left args → message_args left (lines args) ≡ args
unfolding message_args
message_args-lines zero [] h = refl
message_args-lines zero (arg ∷ args) h = absurd (omega (arith, h.0))
message_args-lines (suc left) [] h = rw (message_args, no_token) refl
message_args-lines (suc left) (arg ∷ args) h =
    rw (message_args, strtok-append is_newline 10 arg (lines args) refl h.1.0)
      (ap (◌∷◌ arg) (message_args-lines left args (omega (arith, h.0), h.1.1)))

from_message-boot_message :
    (h : BootHeader) (boot : BootloaderMessage) (args : List (List ℕ)) (a : Arguments)
    → AreArgs 99 args
    → FitsMessage h args
    → from_message h (boot_message h boot args) a ≡ record { program = recovery_word; args = args }
unfolding from_message boot_message strlcpy if_recovery str_equal
from_message-boot_message h boot args a are fits =
    rw
      (
        take_all (h.recovery_size - 1) recovery_line (omega arith),
        add_lines_fits h recovery_line args fits,
        take_all (h.recovery_size - 1) (recovery_line ++ lines args)
            (omega (arith, length-append recovery_line (lines args))),
        strtok-append is_newline 10 recovery_word (lines args) refl
            (refl, (refl, (refl, (refl, (refl, (refl, (refl, (refl, tt)))))))),
      )
      (ap (λ read. record { program = recovery_word; args = read })
        (message_args-lines 99 args are))

module _ (h : BootHeader) {W : Type 0} (storage : Storage W) where
  -- The message behind get_args is the one with its arguments.
  pub get_args-message :
      ((m : BootloaderMessage) (w : W)
        → storage.get_bootloader_message (storage.set_bootloader_message m w) ≡ m)
      → (a : Arguments) (w : W) (s : Started W) → get_args h storage a w ≡ some s
      → storage.get_bootloader_message s.world
        ≡ boot_message h (storage.get_bootloader_message w) s.arguments.args
  unfolding get_args written
  get_args-message stored a w s got = started (file_arguments h storage given w) got
    where
      boot : BootloaderMessage
      boot = storage.get_bootloader_message w

      given : Arguments
      given = message_arguments h storage boot a

      started :
          (o : Option (Arguments × W))
          → (o >>= (λ r. some (written h storage boot r))) ≡ some s
          → storage.get_bootloader_message s.world ≡ boot_message h boot s.arguments.args
      started none e = cc
      started (some (a', w')) e =
          subst
            (λ o. elim o [
              | none ↦ Unit
              | some t ↦
                  storage.get_bootloader_message t.world ≡ boot_message h boot t.arguments.args
            ])
            e (stored (boot_message h boot a'.args) w')

  file_arguments-given :
      (a : Arguments) (w : W) → a.args ≢ [] → file_arguments h storage a w ≡ some (a, w)
  unfolding file_arguments if_no_args
  file_arguments-given a w some_given = by_args a.args some_given
    where
      opened : Option (Arguments × W)
      opened =
          from_file (read_file storage command_file w).0 a
          >>= (λ a'. some (a', (read_file storage command_file w).1))

      by_args :
          (args : List (List ℕ)) → args ≢ [] → if_no_args args opened (some (a, w)) ≡ some (a, w)
      by_args [] k = absurd (k refl)
      by_args (arg ∷ rest) k = refl

  -- A boot whose message is the one that get_args wrote for `args`.
  get_args-again :
      (boot : BootloaderMessage) (args : List (List ℕ)) (p : List ℕ) (w : W)
      → storage.get_bootloader_message w ≡ boot_message h boot args
      → AreArgs 99 args
      → FitsMessage h args
      → args ≢ []
      → get_args h storage (record { program = p; args = [] }) w
        ≡ some (
            written h storage
              (boot_message h boot args)
              (record { program = recovery_word; args = args }, w))
  unfolding get_args message_arguments if_no_args
  get_args-again boot args p w same are fits some_given =
      rw
        (
          same,
          from_message-boot_message h boot args (record { program = p; args = [] }) are fits,
          file_arguments-given (record { program = recovery_word; args = args }) w some_given,
        )
        refl

  -- A boot that finds arguments in the message or in the command file keeps them for the next boot: as
  -- long as the message stays, as when the update is cut off, a boot without a command line has the same
  -- arguments again and leaves the same message, whatever happened to the files. The arguments have to
  -- fit the message, and there is one at least.
  pub get_args_restarts :
      ((m : BootloaderMessage) (w : W)
        → storage.get_bootloader_message (storage.set_bootloader_message m w) ≡ m)
      → (a : Arguments) (w : W) (s : Started W) → a.args ≡ []
      → get_args h storage a w ≡ some s
      → FitsMessage h s.arguments.args
      → s.arguments.args ≢ []
      → (p : List ℕ) (w' : W)
      → storage.get_bootloader_message w' ≡ storage.get_bootloader_message s.world
      → (s' : Started W) × (get_args h storage (record { program = p; args = [] }) w' ≡ some s')
        × (s'.arguments.args ≡ s.arguments.args)
        × (storage.get_bootloader_message s'.world ≡ storage.get_bootloader_message s.world)
  unfolding written boot_message
  get_args_restarts stored a w s none_given got fits some_given p w' kept = (
    written h storage (boot_message h boot args)
        (record { program = recovery_word; args = args }, w'),
    get_args-again boot args p w' (kept ∙ message) (get_args-AreArgs h storage a w s none_given got)
        fits some_given,
    refl,
    stored (boot_message h (boot_message h boot args) args) w' ∙ sym message,
  )
    where
      boot : BootloaderMessage
      boot = storage.get_bootloader_message w

      args : List (List ℕ)
      args = s.arguments.args

      message : storage.get_bootloader_message s.world ≡ boot_message h boot args
      message = get_args-message stored a w s got
