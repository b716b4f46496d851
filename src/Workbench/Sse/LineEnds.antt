-- ===== src/Workbench/Sse/LineEnds.antt =====
-- The line ends of the buffer (`push` of sse-parser.ts): both replacements in one pass, and a pass
-- over a text whose first part had one already.
use wind_solar_ess_agent.Base.{
  ℕ, ◌≡◌, refl, ◌∙◌, ap, inl, inr, false, ◌&&◌, [], ◌∷◌, ◌++◌, arith, ◌==◌, if◌then◌else◌,
  Bool-cases,
}
use wind_solar_ess_agent.Js.Text.{Text, lf, cr}
use wind_solar_ess_agent.Workbench.Sse.{replace_crlf, replace_inner_cr}

-- CRLF and CR become LF, but a CR at the end stays: the next chunk may begin with its LF.
unfoldable pub normalize : Text → Text
normalize [] = []
normalize (c ∷ []) = c ∷ []
normalize (c ∷ d ∷ s) =
    let skip = normalize s in
    let keep = normalize (d ∷ s) in
    if c == cr && d == lf then lf ∷ skip else (if c == cr then lf else c) ∷ keep

-- A text that is not empty stays so.
replace_crlf-cons : (c : ℕ) (s : Text) → (d : ℕ) × (t : Text) × (replace_crlf (c ∷ s) ≡ d ∷ t)
unfolding replace_crlf
replace_crlf-cons c [] = (c, [], refl)
replace_crlf-cons c (d ∷ s) = elim (Bool-cases (c == cr && d == lf)) [
  | inl both ↦ (lf, replace_crlf s, rw both)
  | inr other ↦ (c, replace_crlf (d ∷ s), rw other)
]

replace_inner_cr-lf : (s : Text) → replace_inner_cr (lf ∷ s) ≡ lf ∷ replace_inner_cr s
unfolding replace_inner_cr
replace_inner_cr-lf [] = refl
replace_inner_cr-lf (d ∷ s) = refl

replace_inner_cr-cons :
    (c : ℕ) (s : Text) (d : ℕ) (t : Text)
    → s ≡ d ∷ t
    → replace_inner_cr (c ∷ s) ≡ (if c == cr then lf else c) ∷ replace_inner_cr s
unfolding replace_inner_cr
replace_inner_cr-cons c s d t h = rw h

-- The two replacements of the source are the one pass.
pub replace-eq-normalize : (s : Text) → replace_inner_cr (replace_crlf s) ≡ normalize s
unfolding normalize replace_crlf
replace-eq-normalize [] = unfold replace_inner_cr in refl
replace-eq-normalize (c ∷ []) = unfold replace_inner_cr in refl
replace-eq-normalize (c ∷ d ∷ s) = elim (Bool-cases (c == cr && d == lf)) [
  | inl both ↦ rw both (replace_inner_cr-lf (replace_crlf s) ∙ ap (lf ∷◌) (replace-eq-normalize s))
  | inr other ↦
      let (e, t, h) = replace_crlf-cons d s in
      rw other (
        replace_inner_cr-cons c (replace_crlf (d ∷ s)) e t h
        ∙ ap ((if c == cr then lf else c) ∷◌) (replace-eq-normalize (d ∷ s)))
]

-- A code unit that is no CR is passed on.
pub normalize-plain : (c : ℕ) (s : Text) → (c == cr) ≡ false → normalize (c ∷ s) ≡ c ∷ normalize s
unfolding normalize
normalize-plain c [] h = refl
normalize-plain c (d ∷ s) h = rw h

-- A pass over the first part and then over the whole does what one pass over the whole does.
pub normalize-append : (s t : Text) → normalize (normalize s ++ t) ≡ normalize (s ++ t)
unfolding normalize
normalize-append [] t = refl
normalize-append (c ∷ []) t = refl
normalize-append (c ∷ d ∷ s) t = elim (Bool-cases (c == cr && d == lf)) [
  | inl both ↦
      rw both (normalize-plain lf (normalize s ++ t) refl ∙ ap (lf ∷◌) (normalize-append s t))
  | inr other ↦ rw other (
      normalize-plain (if c == cr then lf else c) (normalize (d ∷ s) ++ t) (ground arith)
      ∙ ap ((if c == cr then lf else c) ∷◌) (normalize-append (d ∷ s) t))
]

-- No CR stands in the text, but perhaps at its end.
abbrev pub IsNormal : Text → Type 0
IsNormal [] = Unit
IsNormal (c ∷ []) = Unit
IsNormal (c ∷ d ∷ s) = ((c == cr) ≡ false) × IsNormal (d ∷ s)

IsNormal-cons : (c : ℕ) (s : Text) → (c == cr) ≡ false → IsNormal s → IsNormal (c ∷ s)
IsNormal-cons c [] h n = tt
IsNormal-cons c (d ∷ s) h n = (h, n)

pub normalize-IsNormal : (s : Text) → IsNormal (normalize s)
unfolding normalize
normalize-IsNormal [] = tt
normalize-IsNormal (c ∷ []) = tt
normalize-IsNormal (c ∷ d ∷ s) = elim (Bool-cases (c == cr && d == lf)) [
  | inl both ↦ rw both (IsNormal-cons lf (normalize s) refl (normalize-IsNormal s))
  | inr other ↦ rw other (
      IsNormal-cons (if c == cr then lf else c) (normalize (d ∷ s)) (ground arith)
        (normalize-IsNormal (d ∷ s)))
]
