-- ===== src/Image/Elements.antt =====
-- Image.cpp: the vector of elements.
pub mod Sized
use ota_backup.Base.{
  ℕ, zero, suc, ◌+◌, ◌-◌, ◌/◌, ◌==◌, List, [], ◌∷◌, ◌++◌, Bool, true, false, ltb, leb,
  if◌then◌else◌, Option, none, some, ℤ, pos, negsuc, length as size, take,
}
use mathlib.Core.Option.{map as option_map}
use ota_backup.Image.Element.{ImageElement}

-- `AddImageElement`: a copy behind the last element.
unfoldable pub add_image_element : List ImageElement → ImageElement → List ImageElement
add_image_element es e = es ++ ((record e { bytes = take e.length e.bytes }) ∷ [])

-- `realloc` and `memcpy` behind the data of the first.
unfoldable pub joined : ImageElement → ImageElement → ImageElement
joined e1 e2 = record {
  address = e1.address;
  length = e1.length + e2.length;
  bytes = take e1.length e1.bytes ++ take e2.length e2.bytes;
}

-- A data record's element: behind the last element where that ends at its address, else on its own.
unfoldable pub store : ℕ → List ImageElement → ImageElement → List ImageElement
store addr_bytes [] e = add_image_element [] e
store addr_bytes (prev ∷ []) e =
    if prev.address + prev.length / addr_bytes == e.address
    then joined prev e ∷ []
    else add_image_element (prev ∷ []) e
store addr_bytes (x ∷ y ∷ es) e = x ∷ store addr_bytes (y ∷ es) e

-- `CompareElement`.
unfoldable pub compare_element : ImageElement → ImageElement → Bool
compare_element e1 e2 = ltb e1.address e2.address

-- `sort`; elements of one address keep their order, which `std::sort` leaves open.
unfoldable pub insert : ImageElement → List ImageElement → List ImageElement
insert e [] = e ∷ []
insert e (x ∷ xs) = let rest = insert e xs in if compare_element x e then x ∷ rest else e ∷ x ∷ xs

unfoldable pub sort : List ImageElement → List ImageElement
sort [] = []
sort (e ∷ es) = insert e (sort es)

-- The loop of `CompactElements` from the iterator on; `none`: the iterator has passed `end() - 1`, and
-- the loop reads behind the vector.
unfoldable pub compact_from : List ImageElement → Option (List ImageElement)
compact_from [] = none
compact_from (e ∷ []) = some (e ∷ [])
compact_from (e1 ∷ e2 ∷ es) =
    let behind = compact_from es in
    let after = compact_from (e2 ∷ es) in
    if e1.address + e1.length / 2 == e2.address
    then option_map (λ r. joined e1 e2 ∷ r) behind
    else option_map (λ r. e1 ∷ r) after

-- `CompactElements`.
unfoldable pub compact_elements : List ImageElement → Option (List ImageElement)
compact_elements es = compact_from (sort es)

-- `GetElement`; `none` is NULL, and a negative rank is outside the vector, which `at` refuses.
pub get_element : List ImageElement → ℕ → Option ImageElement
get_element [] rank = none
get_element (e ∷ es) zero = some e
get_element (e ∷ es) (suc rank) = get_element es rank
