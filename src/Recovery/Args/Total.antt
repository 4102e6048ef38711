-- ===== src/Recovery/Args/Total.antt =====
-- get_args always has a result: the fuel of the loop over the command file is enough.
use ota_backup.Base.{ℕ, zero, suc, ◌≡◌, refl, ◌<◌, arith, List, [], ◌∷◌, Option, none, some, length}
use ota_backup.Recovery.Text.{◌>>=◌, c_string, is_line_end, strtok, fgets, line}
use ota_backup.Recovery.Text.Lines.{line_shorter}
use ota_backup.Recovery.Storage.{BootHeader, Storage, BootloaderMessage, command_file, read_file}
use ota_backup.Recovery.Args.{
  Arguments, file_args, from_file, file_arguments, message_arguments, written, if_no_args, Started,
  get_args,
}

abbrev IsSome {ℓ} : {A : Type ℓ} → Option A → Type 0
IsSome none = ⊥
IsSome (some a) = Unit

then_IsSome {ℓ κ} :
    {A : Type ℓ} {B : Type κ} (o : Option A) (f : A → B)
    → IsSome o
    → IsSome (o >>= (λ a. some (f a)))
then_IsSome none f h = h
then_IsSome (some a) f h = tt

blank_or_arg-IsSome :
    (o : Option (List ℕ × List ℕ)) (blank more : Option (List (List ℕ)))
    → IsSome blank
    → IsSome more
    → IsSome (elim o [ none ↦ blank | some (arg, _) ↦ more >>= (λ args. some (arg ∷ args)) ])
blank_or_arg-IsSome none blank more h k = h
blank_or_arg-IsSome (some (arg, _)) blank more h k = then_IsSome more (λ args. arg ∷ args) k

file_args_ends : (fuel left : ℕ) (s : List ℕ) → length s < fuel → IsSome (file_args fuel left s)
unfolding file_args fgets
file_args_ends zero left s h = absurd (omega arith)
file_args_ends (suc fuel) zero s h = tt
file_args_ends (suc fuel) (suc left) [] h = tt
file_args_ends (suc fuel) (suc left) (c ∷ s) h =
    let (buf, rest) = line 4095 (c ∷ s) in
    blank_or_arg-IsSome (strtok is_line_end (c_string buf)) (file_args fuel (suc left) rest)
      (file_args fuel left rest)
      (file_args_ends fuel (suc left) rest (omega (arith, line_shorter 4094 c s)))
      (file_args_ends fuel left rest (omega (arith, line_shorter 4094 c s)))

from_file-IsSome : (content : Option (List ℕ)) (a : Arguments) → IsSome (from_file content a)
unfolding from_file
from_file-IsSome none a = tt
from_file-IsSome (some s) a =
    then_IsSome (file_args (suc (length s)) 99 s)
      (λ args. record { program = a.program; args = args })
      (file_args_ends (suc (length s)) 99 s (omega arith))

module _ (h : BootHeader) {W : Type 0} (storage : Storage W) where
  file_arguments-IsSome : (a : Arguments) (w : W) → IsSome (file_arguments h storage a w)
  unfolding file_arguments if_no_args
  file_arguments-IsSome a w = by_args a.args
    where
      opened : Option (Arguments × W)
      opened =
          from_file (read_file storage command_file w).0 a
          >>= (λ a'. some (a', (read_file storage command_file w).1))

      by_args : (args : List (List ℕ)) → IsSome (if_no_args args opened (some (a, w)))
      by_args [] =
          then_IsSome (from_file (read_file storage command_file w).0 a)
            (λ a'. (a', (read_file storage command_file w).1))
            (from_file-IsSome (read_file storage command_file w).0 a)
      by_args (arg ∷ rest) = tt

  is_some : {A : Type 0} (o : Option A) → IsSome o → (a : A) × (o ≡ some a)
  is_some none k = absurd k
  is_some (some a) k = (a, refl)

  -- get_args has a result, whatever the command line, the message and the command file are.
  pub get_args_ends : (a : Arguments) (w : W) → (s : Started W) × (get_args h storage a w ≡ some s)
  unfolding get_args
  get_args_ends a w = is_some (get_args h storage a w) (
      then_IsSome (file_arguments h storage given w) (written h storage boot)
        (file_arguments-IsSome given w))
    where
      boot : BootloaderMessage
      boot = storage.get_bootloader_message w

      given : Arguments
      given = message_arguments h storage boot a
