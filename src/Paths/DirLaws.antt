-- ===== src/Paths/DirLaws.antt =====
-- filepath.Dir takes the last element off a cleaned path.
use bonghos.Base.{◌≡◌, refl, sym, ap, ◌∙◌, Bool, List, [], ◌∷◌, ◌++◌}
use bonghos.Base.Text.{Text}
use bonghos.Paths.Clean.{is_abs, rev_append, clean, render, but_last, dir}
use bonghos.Paths.CleanLaws.{
  IsKept, IsWord, kept_of, kept_of-IsKept, clean-parts, clean-rooted, All-rev_append, kept-IsWord,
  render-parts, kept-again, tail-IsKept,
}

but_last-append : (xs : List Text) (x : Text) → but_last (xs ++ x ∷ []) ≡ xs
unfolding but_last
but_last-append [] x = refl
but_last-append (y ∷ []) x = refl
but_last-append (y ∷ z ∷ xs) x = ap (λ l. y ∷ l) (but_last-append (z ∷ xs) x)

rev_append-append : (xs ys zs : List Text) → rev_append xs (ys ++ zs) ≡ rev_append xs ys ++ zs
unfolding rev_append
rev_append-append [] ys zs = refl
rev_append-append (x ∷ xs) ys zs = rev_append-append xs (x ∷ ys) zs

-- A path of kept elements is written out and cleaned as it is.
clean-kept :
    (rooted : Bool) (kept : List Text)
    → IsKept rooted kept
    → clean (render (record { rooted = rooted; parts = rev_append kept [] }))
      ≡ record { rooted = rooted; parts = rev_append kept [] }
clean-kept rooted kept h =
    render-parts rooted (rev_append kept [])
      (All-rev_append IsWord kept [] (kept-IsWord rooted kept h) tt)
    ∙ ap (λ l. record { rooted = rooted; parts = rev_append l [] }) (kept-again rooted kept h)

pub clean-dir :
    (t : Text) → clean (dir t) ≡ record { rooted = is_abs t; parts = but_last (clean t).parts }
unfolding dir
clean-dir t = rw (clean-parts t, clean-rooted t) (taken (kept_of t) (kept_of-IsKept t))
  where
    taken :
        (kept : List Text)
        → IsKept (is_abs t) kept
        → clean (render (record { rooted = is_abs t; parts = but_last (rev_append kept []) }))
          ≡ record { rooted = is_abs t; parts = but_last (rev_append kept []) }
    taken [] h = unfold rev_append but_last in clean-kept (is_abs t) [] tt
    taken (w ∷ kept) h =
        let e : but_last (rev_append (w ∷ kept) []) ≡ rev_append kept [] =
          unfold rev_append in
          (ap but_last (rev_append-append kept [] (w ∷ []))
            ∙ but_last-append (rev_append kept []) w) in
        rw e (clean-kept (is_abs t) kept (tail-IsKept (is_abs t) w kept h))

-- Dir gives a cleaned path.
pub render-dir : (t : Text) → render (clean (dir t)) ≡ dir t
render-dir t =
    ap render (clean-dir t)
    ∙ (unfold dir in
        ap (λ r. render (record { rooted = r; parts = but_last (clean t).parts }))
          (sym (clean-rooted t)))
