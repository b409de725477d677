-- ===== src/Manage/Descriptors.antt =====
-- The descriptors of a file from its first view to its close (io_bbview_file_set_view.c,
-- io_bbview_file_open.c).
use bbview.Base.{
  ℕ, ◌≡◌, refl, ap, subst, ◌∙◌, inl, inr, List, [], ◌∷◌, Bool, true, false, ◌==◌, Bool-cases,
  Option, none, some,
}
use bbview.Base.Handles.{Table, removing, removing-adding}
use bbview.Flush.Descriptors.{IsHeld, file_flush-Even}
use bbview.Flush.Total.{file_flush_ends}
use bbview.Manage.{Manager, close_ompio, file_close}
use bbview.Session.{Code, Env, File, OmpioFile, is_success}
use bbview.Session.Run.{M, ◌>>=◌, Post, Post-both, Post-and_then}
use bbview.SetView.{ViewArgs, direct_flag, file_set_view, is_byte_view}
use bbview.SetView.Descriptors.{IsApart, IsOwn, IsBalanced, with_fd, file_set_view-IsBalanced}
use bbview.SetView.Outcome.{Outcome, file_set_view-Outcome}

abbrev pub without_fd : Table → Option ℕ → Table
without_fd t none = t
without_fd t (some fd) = removing fd t

-- ompio's close closes the descriptor of its handle.
abbrev pub IsClosing : {W : Type 0} → Manager W → (W → Table) → Type 0
IsClosing {W} io held =
    (o : OmpioFile) (w : W) → held (io.file_close o w).2 ≡ without_fd (held w) o.fd

module _ {D I W : Type 0} (env : Env D I W) (io : Manager W) where
  -- Views, one after the other, whatever they return, and a close.
  unfoldable pub views_and_close : List (ViewArgs D I) → M D W (Code × Bool)
  views_and_close [] = file_close env io true
  views_and_close (a ∷ views) = file_set_view env a >>= λ c. views_and_close views

  module _ (held : W → Table) (laws : IsHeld env.posix held) (apart : IsApart env held)
      (closing : IsClosing io held) (base : Table)
      (known : (a : ViewArgs D I) → (direct : Bool) × (direct_flag env a ≡ some direct)) where
    without_own : (fd : Option ℕ) → IsOwn base fd → without_fd (with_fd base fd) fd ≡ base
    without_own none own = refl
    without_own (some fd) own = removing-adding fd base own

    close_ompio-even :
        (f : File D W)
        → IsBalanced env held laws apart base f
        → Post (λ r g. r.1 ≡ true → held g.world ≡ base) (close_ompio env io f)
    unfolding close_ompio
    close_ompio-even f (own, b) done =
        closing f.ompio f.world
        ∙ ap (λ (t : Table). without_fd t f.ompio.fd) b
        ∙ without_own f.ompio.fd own

    file_close-even :
        (f : File D W)
        → f.locked ≡ false
        → IsBalanced env held laws apart base f
        → Post (λ r g. r.1 ≡ true → held g.world ≡ base) (file_close env io true f)
    unfolding file_close
    file_close-even f free b =
        let taken = record f { locked = true } in
        let (c, w, e) = file_flush_ends env taken in
        let even : held w ≡ with_fd base f.ompio.fd =
          subst (Post (λ c g. held g.world ≡ with_fd base f.ompio.fd)) e
            (file_flush-Even env held laws (with_fd base f.ompio.fd) taken b.1) in
        elim (Bool-cases (f.view.view_index == 0)) [
          | inl plain ↦ rw plain (close_ompio-even f b)
          | inr viewed ↦
              rw (viewed, free, e)
                (elim (Bool-cases (is_success c)) [
                  | inl good ↦
                      rw good
                        (close_ompio-even (record f { locked = false; world = w }) (b.0, even))
                  | inr bad ↦ rw bad (λ done. cc)
                ])
        ]

    -- As the system calls and ompio document what they open, close and keep, and with the O_DIRECT
    -- answers known: after any sequence of views from a file whose lock is free, whatever each of them returns, the
    -- close ends, and where it frees the private data the process has just those descriptors open that it had
    -- beside the file's before.
    pub views_and_close-even :
        (views : List (ViewArgs D I)) (f : File D W)
        → f.locked ≡ false
        → IsBalanced env held laws apart base f
        → Post (λ r g. r.1 ≡ true → held g.world ≡ base) (views_and_close views f)
    unfolding views_and_close
    views_and_close-even [] f free b = file_close-even f free b
    views_and_close-even (a ∷ views) f free b =
        let (direct, e) = known a in
        Post-and_then (λ r g. r.1 ≡ true → held g.world ≡ base) (file_set_view env a f)
          (λ c. views_and_close views)
          (Post-both (Outcome (is_byte_view env a) f) (λ c g. IsBalanced env held laws apart base g)
            (file_set_view env a f) (file_set_view-Outcome env a direct e f free)
            (file_set_view-IsBalanced env held laws apart base a direct e f free b))
          (λ c g p. views_and_close-even views g p.0.free p.1)
