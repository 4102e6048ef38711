-- ===== src/Recovery/Menu/Bounds.antt =====
-- The item that is chosen is one of the menu's.
use ota_backup.Base.{
  ℕ, zero, suc, ◌≡◌, subst, ap, length-append, ◌<◌, arith, List, [], ◌∷◌, Bool, true, false,
  if◌then◌else◌, Option, none, some, length, ℤ, pos, negsuc, is_negative, inl, inr, Bool-cases,
}
use ota_backup.Recovery.Menu.{
  MenuAction, highlight_up, highlight_down, invoke_item, no_menu_action, item, Screen, one_less,
  one_more, KeyTurn, goes_on, chooses, key_action, key_turn, key_loop, DirEntry, up_item, is_before,
  insert_item, sort_items, zips_of, dirs_of, menu_items, get_menu_selection,
}

insert_item-length : (s : List ℕ) (ts : List (List ℕ)) → 0 < length (insert_item s ts)
unfolding insert_item
insert_item-length s [] = omega arith
insert_item-length s (t ∷ ts) = elim (Bool-cases (is_before s t)) [
  | inl before ↦ rw before (omega arith)
  | inr behind ↦ rw behind (omega arith)
]

menu_items-length : (entries : List DirEntry) → 0 < length (menu_items entries)
unfolding menu_items sort_items
menu_items-length entries = omega (
  arith,
  length-append (insert_item up_item (sort_items (zips_of entries))) (sort_items (dirs_of entries)),
  insert_item-length up_item (sort_items (zips_of entries)),
)

abbrev pub InRange : ℕ → ℤ → Type 0
InRange n (pos k) = k < n
InRange n (negsuc k) = ⊥

module _ {W : Type 0} (screen : Screen W) (n : ℕ) (some_item : 0 < n)
    (selects : (i : ℤ) (w : W) → InRange n (screen.select_menu i w).0) where
  abbrev Stays : KeyTurn W → Type 0
  Stays (goes_on i w) = InRange n i
  Stays (chooses i w) = InRange n i

  if-Stays : (b : Bool) (x y : KeyTurn W) → Stays x → Stays y → Stays (if b then x else y)
  if-Stays true x y h k = h
  if-Stays false x y h k = k

  key_action-Stays :
      (action : MenuAction) (selected : ℤ) (w : W)
      → InRange n selected
      → Stays (key_action screen true action selected w)
  unfolding key_action
  key_action-Stays highlight_up selected w h = selects (one_less selected) w
  key_action-Stays highlight_down selected w h = selects (one_more selected) w
  key_action-Stays invoke_item selected w h =
      if-Stays (is_negative selected) (goes_on selected w) (chooses selected (screen.end_menu w)) h
        h
  key_action-Stays no_menu_action selected w h = h
  key_action-Stays (item i) selected w h = h

  key_turn-Stays :
      (key : Option ℕ) (selected : ℤ) (w : W)
      → InRange n selected
      → Stays (key_turn screen true key selected w)
  unfolding key_turn
  key_turn-Stays none selected w h =
      if-Stays (screen.was_text_ever_visible w) (goes_on selected w)
        (chooses (pos 0) (screen.end_menu w)) h some_item
  key_turn-Stays (some key) selected w h =
      key_action-Stays (screen.handle_menu_key key (screen.is_text_visible w)) selected w h

  key_loop-InRange :
      (fuel : ℕ) (selected i : ℤ) (w w' : W)
      → InRange n selected
      → key_loop screen fuel true selected w ≡ some (i, w')
      → InRange n i
  unfolding key_loop
  key_loop-InRange zero selected i w w' h e = cc
  key_loop-InRange (suc fuel) selected i w w' h e =
      by_turn (key_turn screen true (screen.wait_key w).0 selected (screen.wait_key w).1)
        (key_turn-Stays (screen.wait_key w).0 selected (screen.wait_key w).1 h)
        (λ selected' v. key_loop-InRange fuel selected' i v w') e
    where
      next : ℤ → W → Option (ℤ × W)
      next selected' v = key_loop screen fuel true selected' v

      item_of : ℤ → Option (ℤ × W) → ℤ
      item_of d none = d
      item_of d (some r) = r.0

      by_turn :
          (t : KeyTurn W)
          → Stays t
          → ((selected' : ℤ) (v : W)
              → InRange n selected'
              → next selected' v ≡ some (i, w')
              → InRange n i)
          → (elim t [
            | goes_on selected' v ↦ next selected' v
            | chooses chosen_item v ↦ some (chosen_item, v)
          ])
            ≡ some (i, w')
          → InRange n i
      by_turn (goes_on selected' v) k again q = again selected' v k q
      by_turn (chooses chosen_item v) k again q = subst (InRange n) (ap (item_of chosen_item) q) k

-- In the menu of a directory get_menu_selection gives the index of an item, whatever keys are pressed
-- and however often the wait for one times out, so that the lookup `zips[chosen_item]` of
-- update_directory stays in the array. SelectMenu keeps a selection among the items, and the
-- selection at the start is among them.
pub get_menu_selection-InRange :
    {W : Type 0} (screen : Screen W) (entries : List DirEntry)
    → ((i : ℤ) (w : W) → InRange (length (menu_items entries)) (screen.select_menu i w).0)
    → (fuel : ℕ) (selected i : ℤ) (w w' : W) → InRange (length (menu_items entries)) selected
    → get_menu_selection screen fuel (menu_items entries) true selected w ≡ some (i, w')
    → InRange (length (menu_items entries)) i
unfolding get_menu_selection
get_menu_selection-InRange screen entries selects fuel selected i w w' h e =
    key_loop-InRange screen (length (menu_items entries)) (menu_items-length entries) selects fuel
      selected i (screen.start_menu (menu_items entries) selected w) w' h e
