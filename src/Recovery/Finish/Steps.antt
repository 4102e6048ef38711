-- ===== src/Recovery/Finish/Steps.antt =====
-- Results that may be missing, and the steps of finish_recovery as one rule.
use ota_backup.Base.{ℕ, List, Bool, true, false, if◌then◌else◌, Option, none, some}
use ota_backup.Recovery.Text.{◌>>=◌}
use ota_backup.Recovery.Storage.{Storage}
use ota_backup.Recovery.Finish.{
  Globals, Finished, copy_logs, write_intent, write_locale, clear_misc, write_flag, leave,
  finish_recovery,
}

abbrev pub OnSome {ℓ} : {A : Type ℓ} → (A → Type 0) → Option A → Type 0
OnSome P none = Unit
OnSome P (some a) = P a

-- What holds of a result, step by step.
pub OnSome-bind {ℓ κ} :
    {A : Type ℓ} {B : Type κ} (P : A → Type 0) (Q : B → Type 0) (o : Option A) (f : A → Option B)
    → OnSome P o
    → ((a : A) → P a → OnSome Q (f a))
    → OnSome Q (o >>= f)
OnSome-bind P Q none f h k = tt
OnSome-bind P Q (some a) f h k = k a h

pub OnSome-both {ℓ} :
    {A : Type ℓ} (P Q : A → Type 0) (o : Option A)
    → OnSome P o
    → OnSome Q o
    → OnSome (λ a. P a × Q a) o
OnSome-both P Q none h k = tt
OnSome-both P Q (some a) h k = (h, k)

pub OnSome-any {ℓ} : {A : Type ℓ} (o : Option A) → OnSome (λ a. Unit) o
OnSome-any none = tt
OnSome-any (some a) = tt

pub OnSome-map {ℓ} :
    {A : Type ℓ} (P Q : A → Type 0) (o : Option A) → OnSome P o → ((a : A) → P a → Q a) → OnSome Q o
OnSome-map P Q none h k = tt
OnSome-map P Q (some a) h k = k a h

pub OnSome-if {ℓ} :
    {A : Type ℓ} (P : A → Type 0) (b : Bool) (x y : Option A)
    → OnSome P x
    → OnSome P y
    → OnSome P (if b then x else y)
OnSome-if P true x y h k = h
OnSome-if P false x y h k = k

module _ {W : Type 0} (storage : Storage W) where
  -- The rule of finish_recovery: what holds of the world behind the locale, and from there to the end.
  pub finish_recovery-OnSome :
      (P : W → Type 0) (Q : Finished W → Type 0) (send_intent : Option (List ℕ)) (g : Globals)
      (w : W)
      → OnSome P (write_locale storage g.locale (write_intent storage send_intent w))
      → ((w1 : W)
          → P w1
          → (let (offset, w2) = copy_logs storage g.tmplog_offset w1 in
              let g' : Globals = record g { tmplog_offset = offset } in
              OnSome
                (λ w3. Q (leave storage g' w3))
                (write_flag storage g' (clear_misc storage g.need_clear_misc w2))))
      → OnSome Q (finish_recovery storage send_intent g w)
  unfolding finish_recovery
  finish_recovery-OnSome P Q send_intent g w h k =
      OnSome-bind P Q (write_locale storage g.locale (write_intent storage send_intent w))
        (λ w1.
          let (offset, w2) = copy_logs storage g.tmplog_offset w1 in
          let g' : Globals = record g { tmplog_offset = offset } in
          write_flag storage g' (clear_misc storage g.need_clear_misc w2)
          >>= (λ w3. some (leave storage g' w3)))
        h
        (λ w1 p.
          let (offset, w2) = copy_logs storage g.tmplog_offset w1 in
          let g' : Globals = record g { tmplog_offset = offset } in
          OnSome-bind (λ w3. Q (leave storage g' w3)) Q
            (write_flag storage g' (clear_misc storage g.need_clear_misc w2))
            (λ w3. some (leave storage g' w3)) (k w1 p) (λ w3 q. q))
