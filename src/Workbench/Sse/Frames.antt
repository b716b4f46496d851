-- ===== src/Workbench/Sse/Frames.antt =====
-- The cut of the buffer at blank lines (`push` of sse-parser.ts), and how it goes on when more text
-- comes in behind the rest that was kept.
use wind_solar_ess_agent.Base.{
  ℕ, ◌≡◌, refl, sym, ◌∙◌, ap, inl, inr, true, false, ◌&&◌, List, [], ◌∷◌, ◌++◌, arith, ◌==◌,
  Bool-cases,
}
use wind_solar_ess_agent.Js.Text.{Text, lf, cr, onto_first}
use wind_solar_ess_agent.Workbench.Sse.{split_blank, last_or_empty, all_but_last}
use wind_solar_ess_agent.Workbench.Sse.LineEnds.{normalize, normalize-plain, IsNormal}

-- A split has a last piece.
split_blank-cons : (s : Text) → (f : Text) × (fs : List Text) × (split_blank s ≡ f ∷ fs)
unfolding split_blank
split_blank-cons [] = ([], [], refl)
split_blank-cons (c ∷ []) = (c ∷ [], [], refl)
split_blank-cons (c ∷ d ∷ s) = elim (Bool-cases (c == lf && d == lf)) [
  | inl blank ↦ ([], split_blank s, rw blank)
  | inr other ↦
      let (f, fs, h) = split_blank-cons (d ∷ s) in (c ∷ f, fs, rw other (ap (onto_first c) h))
]

split_blank-blank :
    (c d : ℕ) (s : Text)
    → (c == lf && d == lf) ≡ true
    → split_blank (c ∷ d ∷ s) ≡ [] ∷ split_blank s
unfolding split_blank
split_blank-blank c d s h = rw h

split_blank-onto :
    (c d : ℕ) (s : Text)
    → (c == lf && d == lf) ≡ false
    → split_blank (c ∷ d ∷ s) ≡ onto_first c (split_blank (d ∷ s))
unfolding split_blank
split_blank-onto c d s h = rw h

all_but_last-append :
    (xs : List Text) (f : Text) (fs : List Text)
    → all_but_last (xs ++ f ∷ fs) ≡ xs ++ all_but_last (f ∷ fs)
unfolding all_but_last
all_but_last-append [] f fs = refl
all_but_last-append (x ∷ []) f fs = refl
all_but_last-append (x ∷ y ∷ xs) f fs = ap (x ∷◌) (all_but_last-append (y ∷ xs) f fs)

last_or_empty-append :
    (xs : List Text) (f : Text) (fs : List Text)
    → last_or_empty (xs ++ f ∷ fs) ≡ last_or_empty (f ∷ fs)
unfolding last_or_empty
last_or_empty-append [] f fs = refl
last_or_empty-append (x ∷ []) f fs = refl
last_or_empty-append (x ∷ y ∷ xs) f fs = last_or_empty-append (y ∷ xs) f fs

-- The complete frames of a text, and the rest that is kept.
unfoldable pub frames : Text → List Text
frames s = all_but_last (split_blank s)

unfoldable pub remainder : Text → Text
remainder s = last_or_empty (split_blank s)

-- A text of one piece is kept whole.
one_piece : (s f : Text) → split_blank s ≡ f ∷ [] → f ≡ s
unfolding split_blank
one_piece [] f h = cc
one_piece (c ∷ []) f h = cc
one_piece (c ∷ d ∷ s) f h = elim (Bool-cases (c == lf && d == lf)) [
  | inl blank ↦
      let (g, gs, e) = split_blank-cons s in two_pieces (rw (split_blank-blank c d s blank, e) at h)
  | inr other ↦
      let (g, gs, e) = split_blank-cons (d ∷ s) in
      joined (one_piece (d ∷ s)) g gs e (rw (split_blank-onto c d s other, e) at h)
]
  where
    two_pieces : {g : Text} {gs : List Text} → [] ∷ (g ∷ gs) ≡ f ∷ [] → f ≡ c ∷ d ∷ s
    two_pieces h = cc

    joined :
        ((g : Text) → split_blank (d ∷ s) ≡ g ∷ [] → g ≡ d ∷ s)
        → (g : Text) (gs : List Text) → split_blank (d ∷ s) ≡ g ∷ gs
        → (c ∷ g) ∷ gs ≡ f ∷ []
        → f ≡ c ∷ d ∷ s
    joined ih g [] e h = cc (ih g e)
    joined ih g (k ∷ gs) e h = cc

-- The text splits into its first frames and what the split of their rest gives.
abbrev SplitsOn : Text → Text → Type 0
SplitsOn n t =
    split_blank (normalize (n ++ t)) ≡ frames n ++ split_blank (normalize (remainder n ++ t))

IsNormal-tail : (c : ℕ) (s : Text) → IsNormal (c ∷ s) → IsNormal s
IsNormal-tail c [] h = tt
IsNormal-tail c (d ∷ s) (_, h) = h

-- Behind a blank line the split starts anew.
SplitsOn-blank :
    (c d : ℕ) (s t : Text) → (c == lf && d == lf) ≡ true → SplitsOn s t → SplitsOn (c ∷ d ∷ s) t
unfolding frames remainder all_but_last last_or_empty
SplitsOn-blank c d s t blank ih =
    let (f, fs, e) = split_blank-cons s in
    let c' : (c == cr) ≡ false = ground arith in
    let d' : (d == cr) ≡ false = ground arith in
    ap split_blank (normalize-plain c (d ∷ s ++ t) c' ∙ ap (c ∷◌) (normalize-plain d (s ++ t) d'))
    ∙ split_blank-blank c d (normalize (s ++ t)) blank
    ∙ ap ([] ∷◌) ih
    ∙ rw (split_blank-blank c d s blank, e)

-- A code unit in front of a text with more than one piece joins its first piece.
SplitsOn-onto :
    (c d e : ℕ) (s t : Text) (f g : Text) (gs : List Text)
    → (c == lf && d == lf) ≡ false
    → IsNormal (c ∷ d ∷ e ∷ s)
    → split_blank (d ∷ e ∷ s) ≡ f ∷ g ∷ gs
    → SplitsOn (d ∷ e ∷ s) t
    → SplitsOn (c ∷ d ∷ e ∷ s) t
unfolding frames remainder all_but_last last_or_empty
SplitsOn-onto c d e s t f g gs other (c', (d', n)) pieces ih =
    let m = normalize (e ∷ s ++ t) in
    let d_first : normalize (d ∷ e ∷ s ++ t) ≡ d ∷ m = normalize-plain d (e ∷ s ++ t) d' in
    ap split_blank (normalize-plain c (d ∷ e ∷ s ++ t) c' ∙ ap (c ∷◌) d_first)
    ∙ split_blank-onto c d m other
    ∙ ap (λ (r : Text). onto_first c (split_blank r)) (sym d_first)
    ∙ ap (onto_first c) ih
    ∙ rw (split_blank-onto c d (e ∷ s) other, pieces)

-- A buffer of one piece has no frame yet.
SplitsOn-one : (n t f : Text) → split_blank n ≡ f ∷ [] → SplitsOn n t
unfolding frames remainder all_but_last last_or_empty
SplitsOn-one n t f h = rw (h, one_piece n f h)

SplitsOn-other :
    (c d : ℕ) (s t : Text) (f : Text) (fs : List Text)
    → (c == lf && d == lf) ≡ false
    → IsNormal (c ∷ d ∷ s)
    → split_blank (d ∷ s) ≡ f ∷ fs
    → SplitsOn (d ∷ s) t
    → SplitsOn (c ∷ d ∷ s) t
SplitsOn-other c d s t f [] other n pieces ih =
    SplitsOn-one (c ∷ d ∷ s) t (c ∷ f) (split_blank-onto c d s other ∙ ap (onto_first c) pieces)
SplitsOn-other c d [] t f (g ∷ gs) other n pieces ih = absurd (unfold split_blank in cc)
SplitsOn-other c d (e ∷ s) t f (g ∷ gs) other n pieces ih =
    SplitsOn-onto c d e s t f g gs other n pieces ih

-- When text `t` comes in behind a buffer `n` whose line ends are normal, the frames of `n` are
-- complete already, and its rest is all that matters for the others.
split_blank-append :
    (n t : Text)
    → IsNormal n
    → split_blank (normalize (n ++ t)) ≡ frames n ++ split_blank (normalize (remainder n ++ t))
split_blank-append [] t h = unfold frames remainder all_but_last last_or_empty split_blank in refl
split_blank-append (c ∷ []) t h =
    unfold frames remainder all_but_last last_or_empty split_blank in refl
split_blank-append (c ∷ d ∷ s) t h = elim (Bool-cases (c == lf && d == lf)) [
  | inl blank ↦
      SplitsOn-blank c d s t blank
        (split_blank-append s t (IsNormal-tail d s (IsNormal-tail c (d ∷ s) h)))
  | inr other ↦
      let (f, fs, pieces) = split_blank-cons (d ∷ s) in
      SplitsOn-other c d s t f fs other h pieces
        (split_blank-append (d ∷ s) t (IsNormal-tail c (d ∷ s) h))
]

-- The frames and the rest of the whole buffer, from those of its first part.
pub frames-append :
    (n t : Text)
    → IsNormal n
    → frames (normalize (n ++ t)) ≡ frames n ++ frames (normalize (remainder n ++ t))
unfolding frames
frames-append n t h =
    let (f, fs, e) = split_blank-cons (normalize (remainder n ++ t)) in
    ap all_but_last (split_blank-append n t h)
    ∙ rw e (all_but_last-append (all_but_last (split_blank n)) f fs)

pub remainder-append :
    (n t : Text)
    → IsNormal n
    → remainder (normalize (n ++ t)) ≡ remainder (normalize (remainder n ++ t))
unfolding remainder frames
remainder-append n t h =
    let (f, fs, e) = split_blank-cons (normalize (remainder n ++ t)) in
    ap last_or_empty (split_blank-append n t h)
    ∙ rw e (last_or_empty-append (all_but_last (split_blank n)) f fs)
