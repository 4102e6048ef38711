-- ===== src/Recovery/Menu/Examples.antt =====
-- A directory with two packages, and a screen whose keys move on and choose.
use ota_backup.Base.{
  ℕ, suc, ◌≡◌, refl, arith, List, [], ◌∷◌, true, ltb, some, length, ℤ, pos, negsuc, inl, inr,
  Bool-cases, if◌then◌else◌,
}
use ota_backup.Image.Path.{str_equal}
use ota_backup.Recovery.Menu.{
  highlight_down, invoke_item, Screen, one_less, one_more, key_action, key_turn, key_loop,
  get_menu_selection, DirEntry, dt_dir, dt_reg, is_dots, up_item, to_lower, lower, is_zip, dir_item,
  zip_item, dirs_of, zips_of, is_before, insert_item, sort_items, menu_items,
}
use ota_backup.Recovery.Menu.Bounds.{InRange, get_menu_selection-InRange}

-- "b" as a directory, ".", "a.ZIP" and "c.txt"
abbrev small_entries : List DirEntry
small_entries =
    record { name = 98 ∷ []; d_type = dt_dir }
    ∷ record { name = 46 ∷ []; d_type = dt_dir }
    ∷ record { name = 97 ∷ 46 ∷ 90 ∷ 73 ∷ 80 ∷ []; d_type = dt_reg }
    ∷ record { name = 99 ∷ 46 ∷ 116 ∷ 120 ∷ 116 ∷ []; d_type = dt_reg }
    ∷ []

small_items :
    menu_items small_entries ≡ up_item ∷ (97 ∷ 46 ∷ 90 ∷ 73 ∷ 80 ∷ []) ∷ (98 ∷ 47 ∷ []) ∷ []
unfolding is_dots to_lower lower is_zip dir_item zip_item dirs_of zips_of is_before insert_item
    sort_items menu_items str_equal
small_items = refl

-- The world counts the keys; the second one chooses.
abbrev keys : Screen ℕ
keys = record {
  start_menu = λ items i w. w;
  end_menu = λ w. w;
  wait_key = λ w. (some w, suc w);
  is_text_visible = λ w. true;
  was_text_ever_visible = λ w. true;
  handle_menu_key = λ k visible. if ltb k 1 then highlight_down else invoke_item;
  select_menu =
      λ i w. elim i [ pos k ↦ (if ltb k 3 then pos k else pos 0, w) | negsuc k ↦ (pos 0, w) ];
}

three : (i : ℤ) (w : ℕ) → InRange 3 (keys.select_menu i w).0
three (pos k) w = elim (Bool-cases (ltb k 3)) [
  | inl inside ↦ rw inside (ground arith)
  | inr outside ↦ rw outside (omega arith)
]
three (negsuc k) w = omega arith

small_choice : get_menu_selection keys 5 (menu_items small_entries) true (pos 0) 0 ≡ some (pos 1, 2)
unfolding one_less one_more key_action key_turn key_loop get_menu_selection
small_choice = refl

get_menu_selection-InRange_example : InRange (length (menu_items small_entries)) (pos 1)
get_menu_selection-InRange_example =
    get_menu_selection-InRange keys small_entries (rw small_items three) 5 (pos 0) (pos 1) 0 2
      (rw small_items (omega arith)) small_choice
