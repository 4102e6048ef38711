-- ===== src/Image/Element.antt =====
-- Image.h: one run of bytes of an image.
use ota_backup.Base.{ℕ, List, ◌≡◌, length as size}

-- `IMAGEELEMENT`; `bytes` is what `data` points to.
pub record ImageElement : Type 0 where
  pub address : ℕ
  pub length : ℕ
  pub bytes : List ℕ

-- The buffer is as long as `length` says.
abbrev pub IsSized : ImageElement → Type 0
IsSized e = size e.bytes ≡ e.length
