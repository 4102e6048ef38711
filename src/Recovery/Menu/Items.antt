-- ===== src/Recovery/Menu/Items.antt =====
-- Where "../" stands in the menu of a directory.
use ota_backup.Base.{
  ℕ, ◌≡◌, ◌↔◌, refl, sym, ◌∙◌, subst, arith, List, [], ◌∷◌, ◌++◌, Bool, true, false, ◌==◌, ltb,
  if◌then◌else◌, get_or, All, All-map, inl, inr, Bool-cases, eq_self,
}
use ota_backup.Recovery.Menu.{
  DirEntry, up_item, is_before, insert_item, sort_items, zips_of, dirs_of, menu_items,
}

is_before_self : (s : List ℕ) → is_before s s ≡ true
unfolding is_before
is_before_self [] = refl
is_before_self (x ∷ s) = rw (eq_self x) (is_before_self s)

-- One of two is before the other.
is_before_total : (s t : List ℕ) → is_before s t ≡ false → is_before t s ≡ true
unfolding is_before
is_before_total [] t h = cc
is_before_total (x ∷ s) [] h = refl
is_before_total (x ∷ s) (y ∷ t) h = elim (Bool-cases (x == y)) [
  | inl same ↦ rw (eq_turned x y same) (is_before_total s t (rw same at h))
  | inr differ ↦ rw (ne_turned x y differ) (ltb_turned x y differ (rw differ at h))
]
  where
    eq_turned : (x y : ℕ) → (x == y) ≡ true → (y == x) ≡ true
    eq_turned x y h = ground arith

    ne_turned : (x y : ℕ) → (x == y) ≡ false → (y == x) ≡ false
    ne_turned x y h = ground arith

    ltb_turned : (x y : ℕ) → (x == y) ≡ false → ltb x y ≡ false → ltb y x ≡ true
    ltb_turned x y h k = ground arith

is_before_trans :
    (s t u : List ℕ) → is_before s t ≡ true → is_before t u ≡ true → is_before s u ≡ true
unfolding is_before
is_before_trans [] t u h k = refl
is_before_trans (x ∷ s) [] u h k = cc
is_before_trans (x ∷ s) (y ∷ t) [] h k = cc
is_before_trans (x ∷ s) (y ∷ t) (z ∷ u) h k =
    by_heads (is_before s t) (is_before t u) (is_before s u) h k (is_before_trans s t u)
  where
    by_heads :
        (p q r : Bool)
        → (if x == y then p else ltb x y) ≡ true
        → (if y == z then q else ltb y z) ≡ true
        → (p ≡ true → q ≡ true → r ≡ true)
        → (if x == z then r else ltb x z) ≡ true
    by_heads p q r h k l = ground arith

insert_item-All :
    (P : List ℕ → Type 0) (s : List ℕ) (ts : List (List ℕ))
    → P s
    → All P ts
    → All P (insert_item s ts)
unfolding insert_item
insert_item-All P s [] h k = (h, tt)
insert_item-All P s (t ∷ ts) h k = elim (Bool-cases (is_before s t)) [
  | inl before ↦ rw before (h, k)
  | inr behind ↦ rw behind (k.0, insert_item-All P s ts h k.1)
]

sort_items-All : (P : List ℕ → Type 0) (ss : List (List ℕ)) → All P ss → All P (sort_items ss)
unfolding sort_items
sort_items-All P [] h = tt
sort_items-All P (s ∷ ss) h = insert_item-All P s (sort_items ss) h.0 (sort_items-All P ss h.1)

-- The first of a list is before every item of another; an empty list has no items beside it.
abbrev Least : List (List ℕ) → List (List ℕ) → Type 0
Least [] ss = ss ≡ []
Least (t ∷ ts) ss = All (λ s. is_before t s ≡ true) ss

insert_item-Least :
    (s : List ℕ) (ts ss : List (List ℕ)) → Least ts ss → Least (insert_item s ts) (s ∷ ss)
unfolding insert_item
insert_item-Least s [] ss h = (is_before_self s, subst (All (λ u. is_before s u ≡ true)) (sym h) tt)
insert_item-Least s (t ∷ ts) ss h = elim (Bool-cases (is_before s t)) [
  | inl before ↦ rw before (
    is_before_self s,
    All-map (λ u. is_before t u ≡ true) (λ u. is_before s u ≡ true)
        (λ u k. is_before_trans s t u before k) ss h,
  )
  | inr behind ↦ rw behind (is_before_total s t behind, h)
]

sort_items-Least : (ss : List (List ℕ)) → Least (sort_items ss) ss
unfolding sort_items
sort_items-Least [] = refl
sort_items-Least (s ∷ ss) = insert_item-Least s (sort_items ss) ss (sort_items-Least ss)

first_before :
    (ts ss : List (List ℕ))
    → Least ts (up_item ∷ ss)
    → get_or ts 0 [] ≡ up_item
    → All (λ s. is_before up_item s ≡ true) ss
first_before [] ss h e = cc
first_before (t ∷ ts) ss h e = subst (λ u. All (λ s. is_before u s ≡ true) ss) e h.1

insert_first :
    (s : List ℕ) (ts : List (List ℕ))
    → All (λ t. is_before s t ≡ true) ts
    → insert_item s ts ≡ s ∷ ts
unfolding insert_item
insert_first s [] h = refl
insert_first s (t ∷ ts) h = rw h.0 refl

first_append :
    (s : List ℕ) (ss ts us : List (List ℕ))
    → get_or (insert_item s ss ++ us) 0 [] ≡ get_or (insert_item s ss) 0 []
unfolding insert_item
first_append s [] ts us = refl
first_append s (t ∷ ss) ts us = elim (Bool-cases (is_before s t)) [
  | inl before ↦ rw before refl
  | inr behind ↦ rw behind refl
]

-- Item 0 of the menu of a directory is "../" exactly when "../" comes before the name of every package
-- in the order of the bytes: a package such as "-a.zip" takes its place, though update_directory goes
-- up at item 0.
pub menu_items-first_iff :
    (entries : List DirEntry)
    → (get_or (menu_items entries) 0 [] ≡ up_item)
      ↔ All (λ name. is_before up_item name ≡ true) (zips_of entries)
unfolding menu_items sort_items
menu_items-first_iff entries = (forward, backward)
  where
    zips : List (List ℕ)
    zips = zips_of entries

    dirs : List (List ℕ)
    dirs = sort_items (dirs_of entries)

    sorted : List (List ℕ)
    sorted = insert_item up_item (sort_items zips)

    forward :
        get_or (sorted ++ dirs) 0 [] ≡ up_item → All (λ name. is_before up_item name ≡ true) zips
    forward e =
        first_before sorted zips
          (insert_item-Least up_item (sort_items zips) zips (sort_items-Least zips))
          (sym (first_append up_item (sort_items zips) [] dirs) ∙ e)

    backward :
        All (λ name. is_before up_item name ≡ true) zips → get_or (sorted ++ dirs) 0 [] ≡ up_item
    backward h =
        rw
          (insert_first up_item (sort_items zips)
            (sort_items-All (λ name. is_before up_item name ≡ true) zips h))
          refl
