-- ===== src/RmCan/Receive/Sort.antt =====
-- Sorting parts: the order in which they came is forgotten.
use mathlib.Core.List.{Permᴰ}
use mathlib.Core.Path.{subst}
use ota_backup.Base.{ℕ, suc, ◌≡◌, ◌≢◌, ◌∙◌, refl, sym, ap, ap₂, List, [], ◌∷◌, All, arith, length}
use native.Mathlib.Decide.{ℕ_discrete}
use ota_backup.Flexcan.Packet.{FlexcanPacket}
use ota_backup.RmCan.Receive.{Parts, insert, sort}

-- The parts of one message: each is known by its number.
abbrev pub Numbered : (ℕ → FlexcanPacket) → FlexcanPacket → Type 0
Numbered f p = p ≡ f p.packet_sn

pub All-perm {ℓ κ} :
    {A : Type ℓ} (P : A → Type κ) {xs ys : List A} → Permᴰ xs ys → All P xs → All P ys
All-perm P Permᴰ.nil h = h
All-perm P (Permᴰ.cons e r) h = (subst P e h.0, All-perm P r h.1)
All-perm P (Permᴰ.swap e g) h = (subst P g h.1.0, (subst P e h.0, h.1.1))
All-perm P (Permᴰ.trans r t) h = All-perm P t (All-perm P r h)

pub length-perm {ℓ} : {A : Type ℓ} {xs ys : List A} → Permᴰ xs ys → length xs ≡ length ys
length-perm Permᴰ.nil = refl
length-perm (Permᴰ.cons e r) = ap suc (length-perm r)
length-perm (Permᴰ.swap e g) = refl
length-perm (Permᴰ.trans r t) = length-perm r ∙ length-perm t

insert_apart :
    (a b : FlexcanPacket) (l : Parts)
    → a.packet_sn ≢ b.packet_sn
    → insert a (insert b l) ≡ insert b (insert a l)
unfolding insert
insert_apart a b [] h = ground arith
insert_apart a b (c ∷ l) h = ground (arith, insert_apart a b l h)

module _ (f : ℕ → FlexcanPacket) where
  insert_comm :
      (a b : FlexcanPacket) (l : Parts)
      → Numbered f a
      → Numbered f b
      → insert a (insert b l) ≡ insert b (insert a l)
  insert_comm a b l ha hb = elim (ℕ_discrete a.packet_sn b.packet_sn) [
    | yes e ↦ same (ha ∙ ap f e ∙ sym hb)
    | no n ↦ insert_apart a b l n
  ]
    where
      same : a ≡ b → insert a (insert b l) ≡ insert b (insert a l)
      same e = ap₂ (λ x y. insert x (insert y l)) e (sym e)

  pub sort-perm : {xs ys : Parts} → Permᴰ xs ys → All (Numbered f) xs → sort xs ≡ sort ys
  unfolding sort
  sort-perm Permᴰ.nil h = refl
  sort-perm (Permᴰ.cons e r) h = ap₂ insert e (sort-perm r h.1)
  sort-perm (Permᴰ.swap {l = l} e g) h =
      insert_comm _ _ (sort l) h.0 h.1.0 ∙ ap₂ (λ x y. insert x (insert y (sort l))) g e
  sort-perm (Permᴰ.trans r t) h = sort-perm r h ∙ sort-perm t (All-perm (Numbered f) r h)
