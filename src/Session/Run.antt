-- ===== src/Session/Run.antt =====
-- Handlers as commands over an open file. `stuck` is what the C leaves undefined or never leaves:
-- taking `f_lock` twice, releasing it when it is free, or following a NULL pointer.
use bbview.Base.{Bool, true, false, if◌then◌else◌}
use bbview.Session.{File, ViewData, OmpioFile, Code, Call, is_active, ompi_error, err_not_supported}

pub data Run (S A : Type 0) : Type 0 where
  ok : A → S → Run S A
  stuck : Run S A

module _ {S A B : Type 0} where
  abbrev pub and_then : Run S A → (A → S → Run S B) → Run S B
  and_then (ok a s) k = k a s
  and_then stuck k = stuck

  infixl 5 ◌>>=◌ ◌>>◌
  abbrev pub ◌>>=◌ : (S → Run S A) → (A → S → Run S B) → S → Run S B
  ◌>>=◌ m k s = and_then (m s) k

  abbrev pub ◌>>◌ : (S → Run S A) → (S → Run S B) → S → Run S B
  ◌>>◌ m k s = and_then (m s) (λ _. k)

abbrev pub pure : {S A : Type 0} → A → S → Run S A
pure = ok

abbrev pub M : Type 0 → Type 0 → Type 0 → Type 0
M D W A = File D W → Run (File D W) A

module _ {D W : Type 0} where
  abbrev pub get : M D W (File D W)
  get f = ok f f

  abbrev pub modify : (File D W → File D W) → M D W (Unit {0})
  modify g f = ok tt (g f)

  -- OPAL_THREAD_LOCK(&fh->f_lock) and OPAL_THREAD_UNLOCK.
  abbrev pub lock : M D W (Unit {0})
  lock f = if f.locked then stuck else ok tt (record f { locked = true })

  abbrev pub unlock : M D W (Unit {0})
  unlock f = if f.locked then ok tt (record f { locked = false }) else stuck

  -- A library call on the ompio handle.
  abbrev pub call : {A : Type 0} → Call W A → M D W A
  call c f = let r = c f.ompio f.world in ok r.0 (record f { ompio = r.1; world = r.2 })

  -- A call that acts on the world alone.
  abbrev pub effect : {A : Type 0} → (W → A × W) → M D W A
  effect c f = let r = c f.world in ok r.0 (record f { world = r.1 })

  abbrev pub set_view_data : (ViewData D → ViewData D) → M D W (Unit {0})
  set_view_data g f = ok tt (record f { view = g f.view })

  abbrev pub set_ompio : (OmpioFile → OmpioFile) → M D W (Unit {0})
  set_ompio g f = ok tt (record f { ompio = g f.ompio })

  -- `if (b) …; else …;` over the state.
  abbrev pub branch : {A : Type 0} → Bool → M D W A → M D W A → M D W A
  branch b m n f = if b then m f else n f

  -- A body between lock and unlock.
  abbrev pub with_lock : {A : Type 0} → M D W A → M D W A
  with_lock m = do lock; a ← m; unlock; pure a

  -- `if (data->state == BBVIEW_STATE_ACTIVE) return OMPI_ERR_NOT_SUPPORTED;`
  abbrev pub unless_active : M D W Code → M D W Code
  unless_active m f = if is_active f.view.state then ok err_not_supported f else m f

  -- `if (NULL == shared_fp_base_module) return OMPI_ERROR;`
  abbrev pub with_sharedfp : M D W Code → M D W Code
  with_sharedfp m f = if f.ompio.sharedfp then m f else ok ompi_error f

-- What a run that ends without getting stuck satisfies.
abbrev pub Post : {S A : Type 0} → (A → S → Type 0) → Run S A → Type 0
Post P (ok a s) = P a s
Post P stuck = ⊥

pub Post-map :
    {S A : Type 0} {P Q : A → S → Type 0} (r : Run S A)
    → Post P r
    → ((a : A) (s : S) → P a s → Q a s)
    → Post Q r
Post-map (ok a s) p k = k a s p
Post-map stuck p k = p

pub Post-and_then :
    {S A B : Type 0} {P : A → S → Type 0} (Q : B → S → Type 0) (r : Run S A) (k : A → S → Run S B)
    → Post P r
    → ((a : A) (s : S) → P a s → Post Q (k a s))
    → Post Q (and_then r k)
Post-and_then Q (ok a s) k p h = h a s p
Post-and_then Q stuck k p h = p

pub Post-both :
    {S A : Type 0} (P Q : A → S → Type 0) (r : Run S A)
    → Post P r
    → Post Q r
    → Post (λ a s. P a s × Q a s) r
Post-both P Q (ok a s) p q = (p, q)
Post-both P Q stuck p q = p
