-- ===== src/Recovery/Options.antt =====
-- recovery.cpp: the long options, getopt_long on them, and the variables of main that they set.
mod Names
use ota_backup.Base.{
  ℕ, zero, suc, ◌+◌, List, [], ◌∷◌, ◌++◌, Bool, true, false, ◌==◌, ◌&&◌, if◌then◌else◌, Option,
  none, some, take, drop,
}
use ota_backup.Image.Path.{str_equal}
pub use Names.*

-- The variables of `main` that the options set, with the globals `locale` and `stage`.
pub record Settings : Type 0 where
  pub send_intent : Option (List ℕ)
  pub update_package : Option (List ℕ)
  pub update_rkimage : Option (List ℕ)
  pub update_rc : Option (List ℕ)
  pub update_rp : Option (List ℕ)
  pub update_rf : Option (List ℕ)
  pub update_rb : Option (List ℕ)
  pub wipe_data : Bool
  pub wipe_cache : Bool
  pub show_text : Bool
  pub wipe_all : Bool
  pub just_exit : Bool
  pub factory_mode : Option (List ℕ)
  pub factory_mode_en : Bool
  pub locale : Option (List ℕ)
  pub stage : List ℕ

abbrev pub no_settings : Settings
no_settings = record {
  send_intent = none;
  update_package = none;
  update_rkimage = none;
  update_rc = none;
  update_rp = none;
  update_rf = none;
  update_rb = none;
  wipe_data = false;
  wipe_cache = false;
  show_text = false;
  wipe_all = false;
  just_exit = false;
  factory_mode = none;
  factory_mode_en = false;
  locale = none;
  stage = [];
}

-- The stage of `--stages`, unless the message has one.
unfoldable pub set_stage : List ℕ → List ℕ → List ℕ
set_stage [] optarg = 49 ∷ 47 ∷ take 17 optarg
set_stage (c ∷ stage) optarg = c ∷ stage

-- The switch over what getopt_long returns. No option has the value 'p', and '?' changes nothing.
unfoldable pub set_option : ℕ → List ℕ → Settings → Settings
unfolding set_stage
set_option arg optarg s =
    if arg == 115
    then record s { send_intent = some optarg }
    else if arg == 117
    then record s { update_package = some optarg }
    else if arg == 114
    then record s { update_rkimage = some optarg }
    else if arg == 213
    then record s { update_rc = some optarg }
    else if arg == 226
    then record s { update_rp = some optarg }
    else if arg == 261
    then record s { update_rf = some optarg }
    else if arg == 212
    then record s { update_rb = some optarg }
    else if arg == 119
    then record s { wipe_data = true; wipe_cache = true }
    else if arg == 99
    then record s { wipe_cache = true }
    else if arg == 102
    then record s { factory_mode = some optarg; factory_mode_en = true }
    else if arg == 116
    then record s { show_text = true }
    else if arg == 216
    then record s { wipe_all = true; wipe_data = true; wipe_cache = true; show_text = true }
    else if arg == 120
    then record s { just_exit = true }
    else if arg == 108
    then record s { locale = some optarg }
    else if arg == 103
    then record s { stage = set_stage s.stage optarg }
    else s

-- What getopt_long takes an argument for: the end of the options, nothing that is returned but '?', an
-- option with its argument, or an option whose argument is the next one.
pub data Parsed : Type 0 where
  end_of_options ignored : Parsed
  option : ℕ → List ℕ → Parsed
  option_wants : ℕ → Parsed

-- The name of an option up to '=', and the value behind it.
unfoldable pub split_name : List ℕ → List ℕ × Option (List ℕ)
split_name [] = ([], none)
split_name (c ∷ s) =
    let (name, value) = split_name s in if c == 61 then ([], some s) else (c ∷ name, value)

unfoldable pub is_prefix : List ℕ → List ℕ → Bool
is_prefix [] s = true
is_prefix (x ∷ p) [] = false
is_prefix (x ∷ p) (y ∷ s) = x == y && is_prefix p s

-- The option of a name; short of that, the only one whose name starts so.
unfoldable pub exact_option : List ℕ → List LongOption → Option LongOption
exact_option name [] = none
exact_option name (o ∷ os) =
    let later = exact_option name os in if str_equal name o.name then some o else later

unfoldable pub starting_options : List ℕ → List LongOption → List LongOption
starting_options name [] = []
starting_options name (o ∷ os) =
    let later = starting_options name os in if is_prefix name o.name then o ∷ later else later

unfoldable pub only_option : List LongOption → Option LongOption
only_option [] = none
only_option (o ∷ []) = some o
only_option (o ∷ o' ∷ os) = none

unfoldable pub find_option : List ℕ → Option LongOption
find_option name = elim (exact_option name options) [
  | some o ↦ some o
  | none ↦ only_option (starting_options name options)
]

unfoldable pub parsed : Option LongOption → Option (List ℕ) → Parsed
parsed none value = ignored
parsed (some o) none = if o.has_arg then option_wants o.val else option o.val []
parsed (some o) (some value) = if o.has_arg then option o.val value else ignored

-- What does not start with "--" is no long option, and there are no short ones.
unfoldable pub after_dashes : List ℕ → Parsed
after_dashes [] = end_of_options
after_dashes (c ∷ s) = let (name, value) = split_name (c ∷ s) in parsed (find_option name) value

unfoldable pub long_option : List ℕ → Parsed
long_option arg = if is_prefix (45 ∷ 45 ∷ []) arg then after_dashes (drop 2 arg) else ignored

-- The loop over getopt_long; `wants` is an option that waits for its argument.
unfoldable pub get_options : Option ℕ → List (List ℕ) → Settings → Settings
get_options wants [] s = s
get_options (some val) (arg ∷ args) s = get_options none args (set_option val arg s)
get_options none (arg ∷ args) s = elim (long_option arg) [
  | end_of_options ↦ s
  | ignored ↦ get_options none args s
  | option val optarg ↦ get_options none args (set_option val optarg s)
  | option_wants val ↦ get_options (some val) args s
]
