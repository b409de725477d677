-- ===== src/Manage/Kept.antt =====
-- What single operations on an open file (io_bbview_file_open.c, io_bbview_module.c) keep.
use bbview.Base.{
  ℕ, ◌≡◌, ◌⊎◌, Bool, true, false, not, ◌&&◌, arith, if◌then◌else◌, Option, none, some,
}
use bbview.Session.{Code, File, Env, Ompio, Transfer, fallback, is_active, is_fallback}
use bbview.Session.Run.{Run, ok, and_then, stuck, pure, Post}
use bbview.SetView.{file_get_view}
use bbview.SetView.Outcome.{IsReady}
use bbview.Transfers.{Slot}
use bbview.Transfers.Locking.{specified, unless_refused, refuses, split, reads, shared}
use bbview.Manage.{
  Manager, file_get_size, file_get_position, file_get_atomicity, file_get_position_shared,
  file_set_atomicity, agreed_atomicity, file_set_size, file_sync, file_seek_shared,
}
use bbview.Manage.Seek.{Whence, file_seek, seek_by, seek_if, seek_to, seek_from_end}

-- What every operation keeps.
pub record IsKept {D W : Type 0} (f g : File D W) : Type 0 where
  pub free : g.locked ≡ false
  pub ready : IsReady f → IsReady g
  pub absorbing : is_fallback f.view.state ≡ true → is_fallback g.view.state ≡ true

if-Post :
    {S A : Type 0} (P : A → S → Type 0) (b : Bool) (x y : Run S A)
    → Post P x
    → Post P y
    → Post P (if b then x else y)
if-Post P true x y h k = h
if-Post P false x y h k = k

pub IsKept-self : {D W : Type 0} (f : File D W) → f.locked ≡ false → IsKept f f
IsKept-self f free = record { free = free; ready = λ h. h; absorbing = λ h. h }

module _ {D I W : Type 0} (ompio : Ompio D I W) where
  unless_refused-IsKept :
      (s : Slot) (t : Transfer D) (f : File D W)
      → f.locked ≡ false
      → (o : Option Code) → Post (λ c g. IsKept f g) (unless_refused ompio o s t f)
  unless_refused-IsKept s t f free none = record { free = free; ready = λ h. h; absorbing = λ h. h }
  unless_refused-IsKept s t f free (some busy) = record {
    free = free;
    ready = λ h. h;
    absorbing = λ h. h;
  }

  pub specified-IsKept :
      (s : Slot) (t : Transfer D) (f : File D W)
      → f.locked ≡ false
      → Post (λ c g. IsKept f g) (specified ompio s t f)
  specified-IsKept s t f free =
      if-Post (λ c g. IsKept f g) (reads s && is_active f.view.state) _ _ (IsKept-self f free)
        (if-Post (λ c g. IsKept f g) (shared s && not f.ompio.sharedfp) _ _ (IsKept-self f free)
          (unless_refused-IsKept s t f free (refuses (split s) f.ompio)))

pub atomicity-kept :
    {D W : Type 0} (io : Manager W) (flag : Bool) (f : File D W)
    → f.locked ≡ false
    → Post
        (λ c g. (g.locked ≡ false) × ((g.view ≡ f.view) ⊎ (g.view.state ≡ fallback)))
        (file_set_atomicity io flag f)
unfolding file_set_atomicity agreed_atomicity
atomicity-kept io flag f free = ground arith

pub IsKept-view : {D W : Type 0} (f g : File D W) → g.locked ≡ false → g.view ≡ f.view → IsKept f g
IsKept-view f g free e = record { free = free; ready = λ h. rw e h; absorbing = λ h. rw e h }

pub set_size-kept :
    {D W : Type 0} (io : Manager W) (size : ℕ) (f : File D W)
    → f.locked ≡ false
    → Post (λ c g. (g.locked ≡ false) × (g.view ≡ f.view)) (file_set_size io size f)
unfolding file_set_size
set_size-kept io size f free = ground arith

pub sync-kept :
    {D W : Type 0} (io : Manager W) (f : File D W)
    → f.locked ≡ false
    → Post (λ c g. (g.locked ≡ false) × (g.view ≡ f.view)) (file_sync io f)
unfolding file_sync
sync-kept io f free = ground arith

pub seek_shared-kept :
    {D W : Type 0} (io : Manager W) (offset whence : ℕ) (f : File D W)
    → f.locked ≡ false
    → Post (λ c g. (g.locked ≡ false) × (g.view ≡ f.view)) (file_seek_shared io offset whence f)
unfolding file_seek_shared
seek_shared-kept io offset whence f free = ground arith

-- What a run that returns satisfies.
abbrev pub Unless : {S A : Type 0} → (A → S → Type 0) → Run S A → Type 0
Unless P (ok a s) = P a s
Unless P stuck = Unit

pub get_size-kept :
    {D W : Type 0} (io : Manager W) (f : File D W)
    → f.locked ≡ false
    → Post (λ c g. (g.locked ≡ false) × (g.view ≡ f.view)) (file_get_size io f)
unfolding file_get_size
get_size-kept io f free = ground arith

pub get_view-kept :
    {D I W : Type 0} (env : Env D I W) (f : File D W)
    → f.locked ≡ false
    → Unless (λ v g. (g.locked ≡ false) × (g.view ≡ f.view)) (file_get_view env f)
unfolding file_get_view
get_view-kept env f free = ground arith

pub get_position_shared-kept :
    {D W : Type 0} (io : Manager W) (offset : ℕ) (f : File D W)
    → f.locked ≡ false
    → Unless (λ v g. (g.locked ≡ false) × (g.view ≡ f.view)) (file_get_position_shared io offset f)
unfolding file_get_position_shared
get_position_shared-kept io offset f free = ground arith

pub seek-kept :
    {D W : Type 0} (io : Manager W) (off : ℕ) (whence : Whence) (f : File D W)
    → f.locked ≡ false
    → Unless (λ v g. (g.locked ≡ false) × (g.view ≡ f.view)) (file_seek io off whence f)
unfolding file_seek seek_by seek_if seek_to seek_from_end
seek-kept io off whence f free = ground arith

pub get_position-kept :
    {D W : Type 0} (io : Manager W) (f : File D W)
    → f.locked ≡ false
    → Post (λ c g. (g.locked ≡ false) × (g.view ≡ f.view)) (file_get_position io f)
unfolding file_get_position
get_position-kept io f free = ground arith

pub get_atomicity-kept :
    {D W : Type 0} (io : Manager W) (f : File D W)
    → f.locked ≡ false
    → Post (λ c g. (g.locked ≡ false) × (g.view ≡ f.view)) (file_get_atomicity io f)
unfolding file_get_atomicity
get_atomicity-kept io f free = ground arith

module _ {D W A B : Type 0} (f : File D W) where
  -- Another result, of a call that leaves the view alone.
  pub answered-IsKept :
      (r : Run (File D W) A) (k : A → B)
      → Post (λ a g. (g.locked ≡ false) × (g.view ≡ f.view)) r
      → Post (λ c g. IsKept f g) (and_then r (λ a. pure (k a)))
  answered-IsKept (ok a g) k (free, same) = IsKept-view f g free same
  answered-IsKept stuck k p = p

  pub answered-IsKept' :
      (r : Run (File D W) A) (k : A → B)
      → Unless (λ a g. (g.locked ≡ false) × (g.view ≡ f.view)) r
      → Unless (λ c g. IsKept f g) (and_then r (λ a. pure (k a)))
  answered-IsKept' (ok a g) k (free, same) = IsKept-view f g free same
  answered-IsKept' stuck k p = p

module _ {D W A : Type 0} (f : File D W) where
  pub returned-IsKept :
      (r : Run (File D W) A)
      → Unless (λ a g. (g.locked ≡ false) × (g.view ≡ f.view)) r
      → Unless (λ c g. IsKept f g) r
  returned-IsKept (ok a g) (free, same) = IsKept-view f g free same
  returned-IsKept stuck p = p

  pub Post-Unless : (P : A → File D W → Type 0) (r : Run (File D W) A) → Post P r → Unless P r
  Post-Unless P (ok a g) p = p
  Post-Unless P stuck p = tt
