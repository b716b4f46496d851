-- ===== src/Twin/Labels/Accepted.antt =====
-- What the loop over the labels keeps (digitalTwinAdapters.js, `resolveSocLabelLayout`).
use wind_solar_ess_agent.Base.{
  ℕ, suc, ◌≤◌, ◌≡◌, ◌⊎◌, refl, sym, ap, subst, ◌∙◌, true, false, some, List, [], ◌∷◌, ◌++◌, arith,
  leb, inl, inr, Bool-cases, Option-cases, length, length-append, All, All-append, All-map,
}
use wind_solar_ess_agent.Js.Text.{Text, text_eq, text_eq→eq}
use wind_solar_ess_agent.Js.Map.{get_key, set_key, get_key-set_key}
use wind_solar_ess_agent.Js.Number.{Numbers}
use wind_solar_ess_agent.Twin.Labels.{
  Candidate, Placement, Placing, Label, rectangles_overlap, hidden, is_usable, usable_of,
  insert_label, sort_labels, offsets_for, moved, overlaps_any, find_placement, accept, place,
  comes_later, place_all, placed,
}

module _ (numbers : Numbers) where
  open numbers use {Number}

  -- The candidate is one of these.
  abbrev pub Occurs : Candidate numbers → List (Candidate numbers) → Type 0
  Occurs c [] = ⊥
  Occurs c (d ∷ ds) = (c ≡ d) ⊎ Occurs c ds

  -- A placement that is one of these candidates, moved.
  abbrev pub IsMoved : List (Candidate numbers) → Placement numbers → Type 0
  IsMoved cs p = (c : Candidate numbers) × Occurs c cs × (p ≡ moved numbers c p.offset_x)

  -- No two of the placements overlap.
  abbrev pub Disjoint : List (Placement numbers) → Type 0
  Disjoint [] = Unit
  Disjoint (p ∷ ps) =
      All (λ (q : Placement numbers). rectangles_overlap numbers q.item p.item ≡ false) ps
      × Disjoint ps

  -- A label with this id is placed with this offset.
  abbrev pub IsPlaced : Text → Number → List (Placement numbers) → Type 0
  IsPlaced id offset [] = ⊥
  IsPlaced id offset (p ∷ ps) = ((p.item.id ≡ id) × (p.offset_x ≡ offset)) ⊎ IsPlaced id offset ps

  -- What the entries show is placed.
  abbrev pub ShowsPlaced : List (Text × Label numbers) → List (Placement numbers) → Type 0
  ShowsPlaced items accepted =
      (id : Text) (label : Label numbers)
      → get_key id items ≡ some label
      → label.visible ≡ true
      → IsPlaced id label.offset_x accepted

  IsPlaced-append :
      (id : Text) (offset : Number) (ps qs : List (Placement numbers))
      → IsPlaced id offset ps
      → IsPlaced id offset (ps ++ qs)
  IsPlaced-append id offset [] qs h = elim h [ ]
  IsPlaced-append id offset (p ∷ ps) qs (inl h) = inl h
  IsPlaced-append id offset (p ∷ ps) qs (inr h) = inr (IsPlaced-append id offset ps qs h)

  IsPlaced-last :
      (p : Placement numbers) (ps : List (Placement numbers))
      → IsPlaced p.item.id p.offset_x (ps ++ p ∷ [])
  IsPlaced-last p [] = inl (refl, refl)
  IsPlaced-last p (q ∷ ps) = inr (IsPlaced-last p ps)

  Disjoint-snoc :
      (p : Placement numbers) (ps : List (Placement numbers))
      → overlaps_any numbers p ps ≡ false
      → Disjoint ps
      → Disjoint (ps ++ p ∷ [])
  Disjoint-snoc p [] h d = (tt, tt)
  Disjoint-snoc p (q ∷ ps) h (apart, d) =
      let here : rectangles_overlap numbers p.item q.item ≡ false = ground arith in
      let later : overlaps_any numbers p ps ≡ false = ground arith in
      (All-append _ ps (p ∷ []) apart (here, tt), Disjoint-snoc p ps later d)

  pub ShowsPlaced-nil : (accepted : List (Placement numbers)) → ShowsPlaced [] accepted
  unfolding get_key
  ShowsPlaced-nil accepted id label found visible = cc

  pub ShowsPlaced-hide :
      (id : Text) (items : List (Text × Label numbers)) (accepted : List (Placement numbers))
      → ShowsPlaced items accepted
      → ShowsPlaced (set_key id (hidden numbers) items) accepted
  ShowsPlaced-hide id items accepted h j label found visible =
      let e = get_key-set_key id j (hidden numbers) items in
      elim (Bool-cases (text_eq id j)) [
        | inl same ↦ absurd (ground arith)
        | inr other ↦ h j label (ground arith) visible
      ]

  find_placement-some :
      (c : Candidate numbers) (offsets : List Number) (accepted : List (Placement numbers))
      (p : Placement numbers)
      → find_placement numbers c offsets accepted ≡ some p
      → (p ≡ moved numbers c p.offset_x) × (overlaps_any numbers p accepted ≡ false)
  unfolding find_placement
  find_placement-some c [] accepted p h = cc
  find_placement-some c (o ∷ offsets) accepted p h =
      elim (Bool-cases (overlaps_any numbers (moved numbers c o) accepted)) [
        | inl taken ↦ find_placement-some c offsets accepted p (rw taken at h)
        | inr free ↦
            let e : moved numbers c o ≡ p = cc (rw free at h) in
            subst
              (λ (q : Placement numbers).
                (q ≡ moved numbers c q.offset_x) × (overlaps_any numbers q accepted ≡ false))
              e (refl, free)
      ]

  -- What the loop keeps, over the labels that it is given.
  pub record IsLaid (max_visible : ℕ) (cs : List (Candidate numbers)) (p : Placing numbers)
      : Type 0 where
    pub few : length p.accepted ≤ max_visible
    pub disjoint : Disjoint p.accepted
    pub from_candidates : All (IsMoved cs) p.accepted
    pub shown : ShowsPlaced p.items p.accepted

  module _ (max_visible : ℕ) (cs : List (Candidate numbers)) (c : Candidate numbers)
      (here : Occurs c cs) where
    hide-IsLaid :
        (p : Placing numbers)
        → IsLaid max_visible cs p
        → IsLaid max_visible cs (record p { items = set_key c.id (hidden numbers) p.items })
    hide-IsLaid p h = record {
      few = h.few;
      disjoint = h.disjoint;
      from_candidates = h.from_candidates;
      shown = ShowsPlaced-hide c.id p.items p.accepted h.shown;
    }

    show-IsLaid :
        (q : Placement numbers) (p : Placing numbers)
        → q ≡ moved numbers c q.offset_x
        → overlaps_any numbers q p.accepted ≡ false
        → suc (length p.accepted) ≤ max_visible
        → IsLaid max_visible cs p
        → IsLaid max_visible cs (accept numbers c (some q) p)
    show-IsLaid q p e free room h = record {
      few = omega (arith, length-append p.accepted (q ∷ []));
      disjoint = Disjoint-snoc q p.accepted free h.disjoint;
      from_candidates =
          All-append (IsMoved cs) p.accepted (q ∷ []) h.from_candidates ((c, here, e), tt);
      shown = λ j label found visible. elim (Bool-cases (text_eq c.id j)) [
        | inl same ↦
            let label_eq : record { visible = true; offset_x = q.offset_x } ≡ label =
              cc (rw same at (sym (get_key-set_key c.id j _ p.items) ∙ found)) in
            subst (λ (offset : Number). IsPlaced j offset (p.accepted ++ q ∷ []))
              (ap (λ (l : Label numbers). l.offset_x) label_eq)
              (subst (λ (id : Text). IsPlaced id q.offset_x (p.accepted ++ q ∷ []))
                (ap (λ (t : Placement numbers). t.item.id) e ∙ text_eq→eq c.id j same)
                (IsPlaced-last q p.accepted))
        | inr other ↦
            IsPlaced-append j label.offset_x p.accepted (q ∷ []) (
              h.shown j label (rw other at (sym (get_key-set_key c.id j _ p.items) ∙ found))
                visible)
      ];
    }

    place-IsLaid :
        (p : Placing numbers)
        → IsLaid max_visible cs p
        → IsLaid max_visible cs (place numbers max_visible c p)
    unfolding place
    place-IsLaid p h = elim (Bool-cases (leb max_visible (length p.accepted))) [
      | inl full ↦ rw full (hide-IsLaid p h)
      | inr room ↦
          let more : suc (length p.accepted) ≤ max_visible = ground arith in
          let found = find_placement numbers c (offsets_for numbers c) p.accepted in
          rw room (elim (Option-cases found) [
            | inl nowhere ↦ rw nowhere (hide-IsLaid p h)
            | inr (q, e) ↦
                let (at, free) = find_placement-some c (offsets_for numbers c) p.accepted q e in
                rw e (show-IsLaid q p at free more h)
          ])
    ]

  place_all-IsLaid :
      (max_visible : ℕ) (cs ds : List (Candidate numbers)) (p : Placing numbers)
      → All (λ d. Occurs d cs) ds
      → IsLaid max_visible cs p
      → IsLaid max_visible cs (place_all numbers max_visible ds p)
  unfolding place_all
  place_all-IsLaid max_visible cs [] p within h = h
  place_all-IsLaid max_visible cs (d ∷ ds) p (here, within) h =
      place_all-IsLaid max_visible cs ds (place numbers max_visible d p) within
        (place-IsLaid max_visible cs d here p h)

  module _ (P : Candidate numbers → Type 0) where
    All-usable_of : (cs : List (Candidate numbers)) → All P cs → All P (usable_of numbers cs)
    All-usable_of [] h = tt
    All-usable_of (c ∷ cs) (p, h) = elim (Bool-cases (is_usable numbers c)) [
      | inl usable ↦ rw usable (p, All-usable_of cs h)
      | inr not_usable ↦ rw not_usable (All-usable_of cs h)
    ]

    All-insert_label :
        (c : Candidate numbers) (cs : List (Candidate numbers))
        → P c
        → All P cs
        → All P (insert_label numbers c cs)
    All-insert_label c [] p h = (p, tt)
    All-insert_label c (d ∷ ds) p (q, h) = elim (Bool-cases (comes_later numbers c d)) [
      | inl later ↦ rw later (q, All-insert_label c ds p h)
      | inr first ↦ rw first (p, (q, h))
    ]

    All-sort_labels : (cs : List (Candidate numbers)) → All P cs → All P (sort_labels numbers cs)
    All-sort_labels [] h = tt
    All-sort_labels (c ∷ cs) (p, h) =
        All-insert_label c (sort_labels numbers cs) p (All-sort_labels cs h)

  All-Occurs : (cs : List (Candidate numbers)) → All (λ c. Occurs c cs) cs
  All-Occurs [] = tt
  All-Occurs (c ∷ cs) = (inl refl, All-map _ _ cs (λ d h. inr h) (All-Occurs cs))

  pub placed-IsLaid :
      (cs : List (Candidate numbers)) (max_visible : ℕ)
      → IsLaid max_visible cs (placed numbers cs max_visible)
  placed-IsLaid cs max_visible =
      let within =
        All-sort_labels (λ c. Occurs c cs) (usable_of numbers cs)
          (All-usable_of (λ c. Occurs c cs) cs (All-Occurs cs)) in
      place_all-IsLaid max_visible cs (sort_labels numbers (usable_of numbers cs)) _ within
        (record {
          few = omega arith;
          disjoint = tt;
          from_candidates = tt;
          shown = ShowsPlaced-nil [];
        })
