-- ===== src/Image/Elements/Sized.antt =====
-- The elements stay as long as they say, and no byte is lost or counted twice.
use mathlib.Core.Option.{map as option_map}
use ota_backup.Base.{
  ℕ, ◌+◌, ◌/◌, ◌==◌, ◌≡◌, inl, inr, ◌∙◌, refl, sym, List, [], ◌∷◌, Bool-cases, Option, none, some,
  arith, All, take_all, length-append,
}
use ota_backup.Image.Element.{ImageElement, IsSized}
use ota_backup.Image.Elements.{
  add_image_element, joined, store, compare_element, insert, sort, compact_from, compact_elements,
}

-- The bytes of all elements together.
abbrev pub total : List ImageElement → ℕ
total [] = 0
total (e ∷ es) = e.length + total es

-- Sized elements with `n` bytes in all.
abbrev pub Holding : ℕ → List ImageElement → Type 0
Holding n es = All IsSized es × (total es ≡ n)

joined-IsSized : (e1 e2 : ImageElement) → IsSized e1 → IsSized e2 → IsSized (joined e1 e2)
unfolding joined
joined-IsSized e1 e2 h k =
    rw (take_all e1.length e1.bytes (omega arith), take_all e2.length e2.bytes (omega arith))
      (omega (arith, length-append e1.bytes e2.bytes))

add_image_element-Holding :
    (es : List ImageElement) (e : ImageElement)
    → All IsSized es
    → IsSized e
    → Holding (total es + e.length) (add_image_element es e)
unfolding add_image_element
add_image_element-Holding [] e h k =
    rw (take_all e.length e.bytes (omega arith)) ((k, tt), omega arith)
add_image_element-Holding (x ∷ es) e h k =
    let rest = add_image_element-Holding es e h.1 k in ((h.0, rest.0), omega (arith, rest.1))

pub store-Holding :
    (addr_bytes : ℕ) (es : List ImageElement) (e : ImageElement)
    → All IsSized es
    → IsSized e
    → Holding (total es + e.length) (store addr_bytes es e)
unfolding store joined
store-Holding addr_bytes [] e h k = add_image_element-Holding [] e h k
store-Holding addr_bytes (prev ∷ []) e h k =
    elim (Bool-cases (prev.address + prev.length / addr_bytes == e.address)) [
      | inl near ↦ rw near ((joined-IsSized prev e h.0 k, tt), both)
      | inr far ↦ rw far (add_image_element-Holding (prev ∷ []) e h k)
    ]
  where
    both : total (joined prev e ∷ []) ≡ total (prev ∷ []) + e.length
    both = omega arith
store-Holding addr_bytes (x ∷ y ∷ es) e h k =
    let rest = store-Holding addr_bytes (y ∷ es) e h.1 k in ((h.0, rest.0), omega (arith, rest.1))

insert-Holding :
    (e : ImageElement) (es : List ImageElement)
    → IsSized e
    → All IsSized es
    → Holding (e.length + total es) (insert e es)
unfolding insert
insert-Holding e [] k h = ((k, tt), refl)
insert-Holding e (x ∷ es) k h = elim (Bool-cases (compare_element x e)) [
  | inl less ↦
      (let rest = insert-Holding e es k h.1 in rw less ((h.0, rest.0), omega (arith, rest.1)))
  | inr more ↦ rw more ((k, h), refl)
]

sort-Holding : (es : List ImageElement) → All IsSized es → Holding (total es) (sort es)
unfolding sort
sort-Holding [] h = (tt, refl)
sort-Holding (e ∷ es) h =
    let rest = sort-Holding es h.1 in
    let put = insert-Holding e (sort es) h.0 rest.0 in (put.0, omega (arith, put.1, rest.1))

-- The bytes of a result, if there is one.
abbrev Results : ℕ → Option (List ImageElement) → Type 0
Results n none = Unit
Results n (some es) = Holding n es

Results-map :
    (n k : ℕ) (e : ImageElement) (o : Option (List ImageElement))
    → IsSized e
    → Results n o
    → k ≡ e.length + n
    → Results k (option_map (λ r. e ∷ r) o)
Results-map n k e none h r q = tt
Results-map n k e (some es) h r q = ((h, r.0), omega (arith, r.1))

compact_from-Results :
    (es : List ImageElement) → All IsSized es → Results (total es) (compact_from es)
unfolding compact_from joined
compact_from-Results [] h = tt
compact_from-Results (e ∷ []) h = (h, refl)
compact_from-Results (e1 ∷ e2 ∷ es) h =
    elim (Bool-cases (e1.address + e1.length / 2 == e2.address)) [
      | inl near ↦ rw near (
          Results-map (total es) (total (e1 ∷ e2 ∷ es)) (joined e1 e2) (compact_from es)
            (joined-IsSized e1 e2 h.0 h.1.0) (compact_from-Results es h.1.1) both)
      | inr far ↦ rw far (
          Results-map (total (e2 ∷ es)) (total (e1 ∷ e2 ∷ es)) e1 (compact_from (e2 ∷ es)) h.0
            (compact_from-Results (e2 ∷ es) h.1) refl)
    ]
  where
    both : total (e1 ∷ e2 ∷ es) ≡ (joined e1 e2).length + total es
    both = omega arith

-- `CompactElements` keeps the number of bytes, and its elements are as long as they say when those
-- before are.
pub compact_elements-Holding :
    (es es' : List ImageElement)
    → All IsSized es
    → compact_elements es ≡ some es'
    → Holding (total es) es'
unfolding compact_elements
compact_elements-Holding es es' h e =
    let sorted = sort-Holding es h in
    let k = there (compact_from (sort es)) es' e (compact_from-Results (sort es) sorted.0) in
    (k.0, k.1 ∙ sorted.1)
  where
    there :
        (o : Option (List ImageElement)) (es' : List ImageElement)
        → o ≡ some es'
        → Results (total (sort es)) o
        → Holding (total (sort es)) es'
    there none es' e r = absurd cc
    there (some xs) es' e r = rw (sym same) r
      where
        same : xs ≡ es'
        same = cc
