-- ===== src/Recovery/Menu.antt =====
-- recovery.cpp: the choice of an item with the keys, and the packages of a directory.
pub mod Bounds
pub mod Items
mod Examples
use ota_backup.Base.{
  ℕ, zero, suc, ◌+◌, ◌-◌, List, [], ◌∷◌, ◌++◌, Bool, true, false, ◌==◌, ltb, leb, ◌&&◌, ◌||◌, not,
  if◌then◌else◌, Option, none, some, length, drop, take, get_or, ℤ, pos, negsuc, minus_one,
  is_negative,
}
use ota_backup.Image.Path.{str_equal}
use ota_backup.Recovery.Text.{◌>>=◌}
use ota_backup.Recovery.Storage.{BootHeader, Storage}
use ota_backup.Recovery.Args.{set_recovery_message}

-- What `HandleMenuKey` makes of a key: one of the actions of Device, or the number of an item.
pub data MenuAction : Type 0 where
  highlight_up highlight_down invoke_item no_menu_action : MenuAction
  item : ℕ → MenuAction

-- The calls of the screen; `wait_key` gives none when it timed out.
pub record Screen (W : Type 0) : Type 0 where
  pub start_menu : List (List ℕ) → ℤ → W → W
  pub end_menu : W → W
  pub wait_key : W → Option ℕ × W
  pub is_text_visible : W → Bool
  pub was_text_ever_visible : W → Bool
  pub handle_menu_key : ℕ → Bool → MenuAction
  pub select_menu : ℤ → W → ℤ × W

unfoldable pub one_less : ℤ → ℤ
one_less (pos zero) = negsuc 0
one_less (pos (suc n)) = pos n
one_less (negsuc n) = negsuc (suc n)

unfoldable pub one_more : ℤ → ℤ
one_more (pos n) = pos (suc n)
one_more (negsuc zero) = pos 0
one_more (negsuc (suc n)) = negsuc n

-- A turn of the loop goes on with a selection, or it ends with an item.
pub data KeyTurn (W : Type 0) : Type 0 where
  goes_on chooses : ℤ → W → KeyTurn W

module _ {W : Type 0} (screen : Screen W) where
  -- The switch over the action, with `chosen_item < 0` behind it.
  unfoldable pub key_action : Bool → MenuAction → ℤ → W → KeyTurn W
  unfolding one_less one_more
  key_action menu_only highlight_up selected w =
      let (selected', w') = screen.select_menu (one_less selected) w in goes_on selected' w'
  key_action menu_only highlight_down selected w =
      let (selected', w') = screen.select_menu (one_more selected) w in goes_on selected' w'
  key_action menu_only invoke_item selected w =
      if is_negative selected then goes_on selected w else chooses selected (screen.end_menu w)
  key_action menu_only no_menu_action selected w = goes_on selected w
  key_action menu_only (item i) selected w =
      if menu_only then goes_on selected w else chooses (pos i) (screen.end_menu w)

  unfoldable pub key_turn : Bool → Option ℕ → ℤ → W → KeyTurn W
  unfolding key_action
  key_turn menu_only none selected w =
      if screen.was_text_ever_visible w
      then goes_on selected w
      else chooses (pos 0) (screen.end_menu w)
  key_turn menu_only (some key) selected w =
      key_action menu_only (screen.handle_menu_key key (screen.is_text_visible w)) selected w

  -- The loop of get_menu_selection: `fuel` bounds the keys. `none`: out of fuel.
  unfoldable pub key_loop : ℕ → Bool → ℤ → W → Option (ℤ × W)
  unfolding key_turn
  key_loop zero menu_only selected w = none
  key_loop (suc fuel) menu_only selected w =
      let (key, w1) = screen.wait_key w in
      elim (key_turn menu_only key selected w1) [
        | goes_on selected' w' ↦ key_loop fuel menu_only selected' w'
        | chooses chosen_item w' ↦ some (chosen_item, w')
      ]

  unfoldable pub get_menu_selection : ℕ → List (List ℕ) → Bool → ℤ → W → Option (ℤ × W)
  unfolding key_loop
  get_menu_selection fuel items menu_only initial_selection w =
      key_loop fuel menu_only initial_selection (screen.start_menu items initial_selection w)

-- `d_type`, as far as it is tested.
pub data EntryType : Type 0 where
  dt_dir dt_reg dt_other : EntryType

pub record DirEntry : Type 0 where
  pub name : List ℕ
  pub d_type : EntryType

-- "." and "..", and "../".
unfoldable pub is_dots : List ℕ → Bool
is_dots name = str_equal name (46 ∷ []) || str_equal name (46 ∷ 46 ∷ [])

abbrev pub up_item : List ℕ
up_item = 46 ∷ 46 ∷ 47 ∷ []

-- `tolower` on ASCII, and the comparison of a name's last four characters with ".zip".
unfoldable pub to_lower : ℕ → ℕ
to_lower c = if leb 65 c && leb c 90 then c + 32 else c

unfoldable pub lower : List ℕ → List ℕ
lower [] = []
lower (c ∷ s) = to_lower c ∷ lower s

unfoldable pub is_zip : List ℕ → Bool
unfolding to_lower lower
is_zip name =
    leb 4 (length name)
    && str_equal (lower (drop (length name - 4) name)) (46 ∷ 122 ∷ 105 ∷ 112 ∷ [])

-- The loop over the entries: the directories with a '/' behind them, and the packages.
unfoldable pub dir_item : DirEntry → List (List ℕ)
unfolding is_dots
dir_item e = elim e.d_type [
  | dt_dir ↦ if is_dots e.name then [] else (e.name ++ (47 ∷ [])) ∷ []
  | dt_reg ↦ []
  | dt_other ↦ []
]

unfoldable pub zip_item : DirEntry → List (List ℕ)
unfolding is_zip
zip_item e = elim e.d_type [
  | dt_dir ↦ []
  | dt_reg ↦ if is_zip e.name then e.name ∷ [] else []
  | dt_other ↦ []
]

unfoldable pub dirs_of : List DirEntry → List (List ℕ)
unfolding dir_item
dirs_of [] = []
dirs_of (e ∷ es) = dir_item e ++ dirs_of es

unfoldable pub zips_of : List DirEntry → List (List ℕ)
unfolding zip_item
zips_of [] = []
zips_of (e ∷ es) = zip_item e ++ zips_of es

-- `strcmp(s, t) <= 0`, and qsort by it.
unfoldable pub is_before : List ℕ → List ℕ → Bool
is_before [] t = true
is_before (x ∷ s) [] = false
is_before (x ∷ s) (y ∷ t) = let later = is_before s t in if x == y then later else ltb x y

unfoldable pub insert_item : List ℕ → List (List ℕ) → List (List ℕ)
insert_item s [] = s ∷ []
insert_item s (t ∷ ts) =
    let later = insert_item s ts in if is_before s t then s ∷ t ∷ ts else t ∷ later

unfoldable pub sort_items : List (List ℕ) → List (List ℕ)
unfolding insert_item
sort_items [] = []
sort_items (s ∷ ss) = insert_item s (sort_items ss)

-- The items of the menu: "../" among the packages, and then the directories.
unfoldable pub menu_items : List DirEntry → List (List ℕ)
unfolding dirs_of zips_of sort_items
menu_items es = sort_items (up_item ∷ zips_of es) ++ sort_items (dirs_of es)

-- The last character is '/'.
unfoldable pub ends_in_slash : List ℕ → Bool
ends_in_slash [] = false
ends_in_slash (c ∷ []) = c == 47
ends_in_slash (c ∷ d ∷ s) = ends_in_slash (d ∷ s)

-- The calls on a directory: mounted, listed (none: it does not open), unmounted at the end, and
-- `install_package` with `*wipe_cache` before and after.
pub record Directory (W : Type 0) : Type 0 where
  pub mount_path : List ℕ → W → W
  pub list : List ℕ → W → Option (List DirEntry)
  pub unmount_when_done : W → W
  pub install_package : List ℕ → Bool → W → ℤ × Bool × W

module _ (h : BootHeader) {W : Type 0} (storage : Storage W) (screen : Screen W)
    (directory : Directory W) where
  -- The do-while loop, for paths that fit PATH_MAX; `sub` is the call for a directory below. The result,
  -- `*wipe_cache` and the world.
  unfoldable pub browse :
      ℕ
      → (List ℕ → Bool → W → Option (ℤ × Bool × W))
      → List ℕ
      → List (List ℕ)
      → ℤ
      → Bool
      → W
      → Option (ℤ × Bool × W)
  unfolding ends_in_slash
  browse zero sub path items chosen_item wipe_cache w = none
  browse (suc fuel) sub path items chosen_item wipe_cache w =
      get_menu_selection screen fuel items true chosen_item w >>= (λ (chosen, w1). elim chosen [
        | pos zero ↦ some (minus_one, wipe_cache, w1)
        | pos (suc i) ↦
            let name = get_or items (suc i) [] in
            let new_path = path ++ (47 ∷ name) in
            let below =
              sub (take (length new_path - 1) new_path) wipe_cache w1 >>= (λ (result, wipe, w2).
                let again = browse fuel sub path items (pos (suc i)) wipe w2 in
                if is_negative result then again else some (result, wipe, w2)) in
            if ends_in_slash name
            then below
            else some
                (directory.install_package new_path wipe_cache (set_recovery_message h storage w1))
        | negsuc i ↦ none
      ])

  unfoldable pub update_directory : ℕ → List ℕ → Bool → W → Option (ℤ × Bool × W)
  unfolding browse menu_items
  update_directory zero path wipe_cache w = none
  update_directory (suc fuel) path wipe_cache w =
      let w1 = directory.mount_path path w in
      elim (directory.list path w1) [
        | none ↦ some (pos 0, wipe_cache, directory.unmount_when_done w1)
        | some entries ↦
            browse fuel (update_directory fuel) path (menu_items entries) (pos 0) wipe_cache w1
            >>= (λ (result, wipe, w2). some (result, wipe, directory.unmount_when_done w2))
      ]
