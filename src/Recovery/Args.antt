-- ===== src/Recovery/Args.antt =====
-- recovery.cpp: where the arguments come from, and the message that keeps them for the next boot.
pub mod Total
pub mod Bounded
pub mod Restart
use ota_backup.Base.{
  ℕ, zero, suc, ◌+◌, ◌-◌, List, [], ◌∷◌, Bool, true, false, Option, none, some, length, take,
  if◌then◌else◌,
}
use ota_backup.Image.Path.{str_equal}
use ota_backup.Recovery.Text.{
  ◌>>=◌, c_string, is_newline, is_line_end, strtok, strlcpy, strlcat, fgets,
}
use ota_backup.Recovery.Storage.{
  BootloaderMessage, BootHeader, Storage, zero_message, command_file, read_file,
}

abbrev pub max_arg_length : ℕ
max_arg_length = 4096

abbrev pub max_args : ℕ
max_args = 100

-- "recovery"
abbrev pub recovery_word : List ℕ
recovery_word = 114 ∷ 101 ∷ 99 ∷ 111 ∷ 118 ∷ 101 ∷ 114 ∷ 121 ∷ []

-- "recovery\n"
abbrev pub recovery_line : List ℕ
recovery_line = 114 ∷ 101 ∷ 99 ∷ 111 ∷ 118 ∷ 101 ∷ 114 ∷ 121 ∷ 10 ∷ []

-- "boot-recovery"
abbrev pub boot_recovery : List ℕ
boot_recovery = 98 ∷ 111 ∷ 111 ∷ 116 ∷ 45 ∷ 114 ∷ 101 ∷ 99 ∷ 111 ∷ 118 ∷ 101 ∷ 114 ∷ 121 ∷ []

-- `argc` and `argv`, whose first is the name of the program.
pub record Arguments : Type 0 where
  pub program : List ℕ
  pub args : List (List ℕ)

-- The loop over the message, with `left` more places in `argv`.
unfoldable pub message_args : ℕ → List ℕ → List (List ℕ)
message_args zero s = []
message_args (suc left) s = elim (strtok is_newline s) [
  | none ↦ []
  | some (arg, rest) ↦ arg ∷ message_args left rest
]

-- The arguments of the message, which count when its first line is "recovery".
unfoldable pub if_recovery : Option (List ℕ × List ℕ) → Arguments → Arguments
if_recovery none a = a
if_recovery (some (arg, rest)) a =
    if str_equal arg recovery_word
    then record { program = arg; args = message_args (max_args - 1) rest }
    else a

unfoldable pub from_message : BootHeader → BootloaderMessage → Arguments → Arguments
from_message h boot a = if_recovery (strtok is_newline (take (h.recovery_size - 1) boot.recovery)) a

-- The test `*argc <= 1`.
unfoldable pub if_no_args {ℓ} : {A : Type ℓ} → List (List ℕ) → A → A → A
if_no_args [] x y = x
if_no_args (arg ∷ args) x y = y

-- The loop over the command file; a blank line takes no place. `none`: out of fuel.
unfoldable pub file_args : ℕ → ℕ → List ℕ → Option (List (List ℕ))
file_args fuel zero s = some []
file_args zero (suc left) s = none
file_args (suc fuel) (suc left) s = elim (fgets max_arg_length s) [
  | none ↦ some []
  | some (buf, rest) ↦ elim (strtok is_line_end (c_string buf)) [
    | none ↦ file_args fuel (suc left) rest
    | some (arg, _) ↦ file_args fuel left rest >>= (λ args. some (arg ∷ args))
  ]
]

unfoldable pub from_file : Option (List ℕ) → Arguments → Option Arguments
from_file none a = some a
from_file (some s) a =
    file_args (suc (length s)) (max_args - 1) s
    >>= (λ args. some (record { program = a.program; args = args }))

-- The arguments behind "recovery\n", a line for each.
unfoldable pub add_lines : BootHeader → List ℕ → List (List ℕ) → List ℕ
add_lines h recovery [] = recovery
add_lines h recovery (arg ∷ args) =
    add_lines h (strlcat (strlcat recovery arg h.recovery_size) (10 ∷ []) h.recovery_size) args

unfoldable pub boot_message : BootHeader → BootloaderMessage → List (List ℕ) → BootloaderMessage
boot_message h boot args = record boot {
  command = strlcpy boot_recovery h.command_size;
  recovery = add_lines h (strlcpy recovery_line h.recovery_size) args;
}

-- set_sdcard_update_bootloader_message(NULL), and set_sdcard_update_img_bootloader_message(NULL), which
-- does the same: a message without arguments.
unfoldable pub set_recovery_message : {W : Type 0} → BootHeader → Storage W → W → W
set_recovery_message h storage w =
    storage.set_bootloader_message
      (record zero_message {
        command = strlcpy boot_recovery h.command_size;
        recovery = strlcpy recovery_line h.recovery_size;
      })
      w

-- What `get_args` leaves: the arguments, the global `stage`, and the world.
pub record Started (W : Type 0) : Type 0 where
  pub arguments : Arguments
  pub stage : List ℕ
  pub world : W

module _ (h : BootHeader) {W : Type 0} (storage : Storage W) where
  unfoldable pub message_arguments : BootloaderMessage → Arguments → Arguments
  message_arguments boot a = if_no_args a.args (from_message h boot a) a

  -- The command file is opened when there are no arguments so far.
  unfoldable pub file_arguments : Arguments → W → Option (Arguments × W)
  file_arguments a w =
      let (content, w') = read_file storage command_file w in
      let read = from_file content a >>= (λ a'. some (a', w')) in
      if_no_args a.args read (some (a, w))

  -- The arguments are written back into the message.
  unfoldable pub written : BootloaderMessage → Arguments × W → Started W
  written boot (a, w) = record {
    arguments = a;
    stage = boot.stage;
    world = storage.set_bootloader_message (boot_message h boot a.args) w;
  }

  unfoldable pub get_args : Arguments → W → Option (Started W)
  get_args a w =
      let boot = storage.get_bootloader_message w in
      file_arguments (message_arguments boot a) w >>= (λ r. some (written boot r))
