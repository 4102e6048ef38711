-- ===== src/RobotUpdate/Session/Hex.antt =====
-- `upgrade` with the `LoadHex` of Image.cpp.
use ota_backup.Base.{ℕ, List, ◌≡◌, Option, some, All, pos}
use ota_backup.Image.Element.{IsSized}
use ota_backup.Image.Elements.Sized.{Holding}
use ota_backup.Image.Load.{Variables, loaded, load_hex}
use ota_backup.Image.Load.Finish.{Answers, load_hex-Answers}
use ota_backup.RobotUpdate.Transport.{CanDevice, GivesPackets, Protocol}
use ota_backup.RobotUpdate.Firmware.{Progress}
use ota_backup.RobotUpdate.Session.{Loaded, Services, addr_bytes, upgrade}
use ota_backup.RobotUpdate.Session.Upgraded.{Upgraded, upgrade-Upgraded}

-- The loader is `LoadHex`: what it gives is what that loads from the path and the contents of the file.
pub record LoadsHex {File W : Type 0} (services : Services File W) (v : Variables) : Type 0 where
  pub path : File → List ℕ
  pub contents : File → Option (List ℕ)
  pub agrees :
      (file : File) (bytes : ℕ) (image : Loaded)
      → services.load_hex file bytes ≡ some image
      → load_hex v (path file) (contents file) bytes ≡ some (loaded image.elements image.data_size)

loaded-IsSized :
    (v : Variables) (path : List ℕ) (contents : Option (List ℕ)) (bytes : ℕ) (image : Loaded)
    → load_hex v path contents bytes ≡ some (loaded image.elements image.data_size)
    → All IsSized image.elements
loaded-IsSized v path contents bytes image e = (held (load_hex-Answers v path contents bytes)).0
  where
    held :
        Answers v path bytes contents (load_hex v path contents bytes)
        → Holding image.data_size image.elements
    held a = rw e at a

-- In a world whose reads give packets, with `LoadHex` as the loader: when `upgrade` returns 0, `LoadHex`
-- has loaded an image from the file, and the board was told to start, was given the elements of that
-- image in order, each as its address and its bytes in pieces of at most 500 with a checksum that it
-- found right, and was told that this was the end; it has answered every step.
pub upgrade-LoadsHex :
    {File W : Type 0} (can : CanDevice W) (gives : GivesPackets can) (p : Protocol) (m : ℕ)
    (services : Services File W) (v : Variables) (hex : LoadsHex services v) (file : File)
    (g g' : Progress) (w w' : W)
    → upgrade p can services m file g w ≡ some (pos 0, g', w')
    → (image : Loaded) × (load_hex v (hex.path file) (hex.contents file) (addr_bytes p m)
        ≡ some (loaded image.elements image.data_size))
      × Upgraded can gives p m image w w'
upgrade-LoadsHex can gives p m services v hex file g g' w w' e =
    let k = upgrade-Upgraded can gives p m services file g g' w w' e (λ image l.
      loaded-IsSized v (hex.path file) (hex.contents file) (addr_bytes p m) image
        (hex.agrees file (addr_bytes p m) image l)) in
    (k.0, hex.agrees file (addr_bytes p m) k.0 k.1, k.2)
