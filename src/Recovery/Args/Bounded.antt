-- ===== src/Recovery/Args/Bounded.antt =====
-- How many arguments the message and the command file give, and of which characters.
use ota_backup.Base.{
  ℕ, zero, suc, ◌-◌, ◌≡◌, sym, ap, subst, ◌≤◌, arith, List, [], ◌∷◌, false, Option, none, some,
  length, take, All, All-map, inl, inr, Bool-cases,
}
use ota_backup.Image.Path.{str_equal}
use ota_backup.Recovery.Text.{◌>>=◌, c_string, is_newline, is_line_end, strtok, fgets, line}
use ota_backup.Recovery.Text.Tokens.{IsToken, OfToken, strtok-OfToken}
use ota_backup.Recovery.Storage.{BootHeader, Storage, BootloaderMessage, command_file, read_file}
use ota_backup.Recovery.Args.{
  Arguments, recovery_word, message_args, if_recovery, if_no_args, written, from_message, file_args,
  from_file, file_arguments, message_arguments, Started, get_args,
}

-- At most `left` arguments, none of them empty, and no newline in them.
abbrev pub AreArgs : ℕ → List (List ℕ) → Type 0
AreArgs left args = (length args ≤ left) × All (IsToken is_newline) args

abbrev MaybeArgs : ℕ → Option (List (List ℕ)) → Type 0
MaybeArgs left none = Unit
MaybeArgs left (some args) = AreArgs left args

add_arg-AreArgs :
    (left : ℕ) (o : Option (List ℕ × List ℕ)) (more : List ℕ → List (List ℕ))
    → OfToken is_newline o
    → ((rest : List ℕ) → AreArgs left (more rest))
    → AreArgs (suc left) (elim o [ none ↦ [] | some (arg, rest) ↦ arg ∷ more rest ])
add_arg-AreArgs left none more h k = (omega arith, tt)
add_arg-AreArgs left (some (arg, rest)) more h k = (omega (arith, (k rest).0), (h, (k rest).1))

message_args-AreArgs : (left : ℕ) (s : List ℕ) → AreArgs left (message_args left s)
unfolding message_args
message_args-AreArgs zero s = (omega arith, tt)
message_args-AreArgs (suc left) s =
    add_arg-AreArgs left (strtok is_newline s) (message_args left) (strtok-OfToken is_newline s)
      (message_args-AreArgs left)

inside_line : (c : ℕ) → is_line_end c ≡ false → is_newline c ≡ false
inside_line c h = ground arith

IsToken-line : (t : List ℕ) → IsToken is_line_end t → IsToken is_newline t
IsToken-line [] h = h
IsToken-line (c ∷ t) h =
    All-map (λ x. is_line_end x ≡ false) (λ x. is_newline x ≡ false) inside_line (c ∷ t) h

add_maybe-MaybeArgs :
    (left : ℕ) (arg : List ℕ) (more : Option (List (List ℕ)))
    → IsToken is_newline arg
    → MaybeArgs left more
    → MaybeArgs (suc left) (more >>= (λ args. some (arg ∷ args)))
add_maybe-MaybeArgs left arg none h k = tt
add_maybe-MaybeArgs left arg (some args) h k = (omega (arith, k.0), (h, k.1))

blank_or_arg-MaybeArgs :
    (left : ℕ) (o : Option (List ℕ × List ℕ)) (blank more : Option (List (List ℕ)))
    → OfToken is_line_end o
    → MaybeArgs (suc left) blank
    → MaybeArgs left more
    → MaybeArgs
        (suc left)
        (elim o [ none ↦ blank | some (arg, _) ↦ more >>= (λ args. some (arg ∷ args)) ])
blank_or_arg-MaybeArgs left none blank more h b k = b
blank_or_arg-MaybeArgs left (some (arg, _)) blank more h b k =
    add_maybe-MaybeArgs left arg more (IsToken-line arg h) k

file_args-MaybeArgs : (fuel left : ℕ) (s : List ℕ) → MaybeArgs left (file_args fuel left s)
unfolding file_args fgets
file_args-MaybeArgs zero zero s = (omega arith, tt)
file_args-MaybeArgs zero (suc left) s = tt
file_args-MaybeArgs (suc fuel) zero s = (omega arith, tt)
file_args-MaybeArgs (suc fuel) (suc left) [] = (omega arith, tt)
file_args-MaybeArgs (suc fuel) (suc left) (c ∷ s) =
    let (buf, rest) = line 4095 (c ∷ s) in
    blank_or_arg-MaybeArgs left (strtok is_line_end (c_string buf)) (file_args fuel (suc left) rest)
      (file_args fuel left rest) (strtok-OfToken is_line_end (c_string buf))
      (file_args-MaybeArgs fuel (suc left) rest) (file_args-MaybeArgs fuel left rest)

if_recovery-AreArgs :
    (o : Option (List ℕ × List ℕ)) (a : Arguments)
    → AreArgs 99 a.args
    → AreArgs 99 (if_recovery o a).args
unfolding if_recovery
if_recovery-AreArgs none a kept = kept
if_recovery-AreArgs (some (arg, rest)) a kept = elim (Bool-cases (str_equal arg recovery_word)) [
  | inl same ↦ rw same (message_args-AreArgs 99 rest)
  | inr other ↦ rw other kept
]

-- What a result of the file or of the whole function holds.
abbrev Given : Option Arguments → Type 0
Given none = Unit
Given (some a) = AreArgs 99 a.args

from_file-Given :
    (content : Option (List ℕ)) (a : Arguments) → AreArgs 99 a.args → Given (from_file content a)
unfolding from_file
from_file-Given none a h = h
from_file-Given (some s) a h =
    by_file (file_args (suc (length s)) 99 s) (file_args-MaybeArgs (suc (length s)) 99 s)
  where
    by_file :
        (o : Option (List (List ℕ)))
        → MaybeArgs 99 o
        → Given (o >>= (λ args. some (record { program = a.program; args = args })))
    by_file none k = tt
    by_file (some args) k = k

module _ (h : BootHeader) {W : Type 0} (storage : Storage W) where
  abbrev Opened : Option (Arguments × W) → Type 0
  Opened none = Unit
  Opened (some (a, w)) = AreArgs 99 a.args

  file_arguments-Opened :
      (a : Arguments) (w : W) → AreArgs 99 a.args → Opened (file_arguments h storage a w)
  unfolding file_arguments if_no_args
  file_arguments-Opened a w k = by_args a.args
    where
      by_read : (o : Option Arguments) (w' : W) → Given o → Opened (o >>= (λ a'. some (a', w')))
      by_read none w' g = tt
      by_read (some a') w' g = g

      opened : Option (Arguments × W)
      opened =
          from_file (read_file storage command_file w).0 a
          >>= (λ a'. some (a', (read_file storage command_file w).1))

      by_args : (args : List (List ℕ)) → Opened (if_no_args args opened (some (a, w)))
      by_args [] =
          by_read (from_file (read_file storage command_file w).0 a)
            (read_file storage command_file w).1
            (from_file-Given (read_file storage command_file w).0 a k)
      by_args (arg ∷ rest) = k

  message_arguments-AreArgs :
      (boot : BootloaderMessage) (a : Arguments)
      → a.args ≡ []
      → AreArgs 99 (message_arguments h storage boot a).args
  unfolding message_arguments if_no_args from_message
  message_arguments-AreArgs boot a none_given = by_args a.args none_given
    where
      read : Arguments
      read = from_message h boot a

      by_args : (args : List (List ℕ)) → args ≡ [] → AreArgs 99 (if_no_args args read a).args
      by_args [] e =
          if_recovery-AreArgs (strtok is_newline (take (h.recovery_size - 1) boot.recovery)) a
            (subst (AreArgs 99) (sym none_given) (omega arith, tt))
      by_args (arg ∷ rest) e = cc

  -- When the command line has no arguments, get_args gives at most 99, so that they fit `argv` with its
  -- MAX_ARGS places, and each of them is a line of one character at least.
  pub get_args-AreArgs :
      (a : Arguments) (w : W) (s : Started W)
      → a.args ≡ []
      → get_args h storage a w ≡ some s
      → AreArgs 99 s.arguments.args
  unfolding get_args written
  get_args-AreArgs a w s none_given got =
      started (file_arguments h storage given w)
        (file_arguments-Opened given w (message_arguments-AreArgs boot a none_given)) got
    where
      boot : BootloaderMessage
      boot = storage.get_bootloader_message w

      given : Arguments
      given = message_arguments h storage boot a

      args_of : Option (Started W) → List (List ℕ)
      args_of none = []
      args_of (some t) = t.arguments.args

      started :
          (o : Option (Arguments × W))
          → Opened o
          → (o >>= (λ r. some (written h storage boot r))) ≡ some s
          → AreArgs 99 s.arguments.args
      started none k e = cc
      started (some (a', w')) k e = subst (AreArgs 99) (ap args_of e) k
