-- ===== src/Decode/Targets.antt =====
-- The render targets that a new context of src/decode.c marks.
use venus_vaapi_driver.Common.{
  ℕ, ◌+◌, ◌≤◌, ◌≡◌, ◌≢◌, refl, sym, ap, subst, ◌∙◌, true, Option, none, some, List, [], ◌∷◌, length,
  length-set, All, arith, ◌==◌, ==_iff, ==-false, Bool-cases, Option-cases, inl, inr,
}
use venus_vaapi_driver.Backend.{Backend, Config, Surface, surface_slot, max_surfaces, find_surface}
use venus_vaapi_driver.Backend.Table.{base_of, find-some, find-set_self, find-set_ne, find-set_kept}
use venus_vaapi_driver.Decode.Contexts.{are_targets, mark_target, mark_targets, put_surface}

-- A surface that refers to a context.
pub record RefersTo (backend : Backend) (context_id surface_id : ℕ) : Type 0 where
  pub index : ℕ
  pub surface : Surface
  pub found : find_surface backend surface_id ≡ some (index, surface)
  pub refers : surface.context_id ≡ context_id

-- What is kept of the tables while surfaces are marked.
record IsMarking (before after : Backend) : Type 0 where
  same_configs : after.configs ≡ before.configs
  same_contexts : after.contexts ≡ before.contexts
  fits : length after.surfaces ≤ max_surfaces
  still : (id : ℕ) → find_surface before id ≢ none → find_surface after id ≢ none

module _ (backend : Backend) (context_id : ℕ) (fits : length backend.surfaces ≤ max_surfaces) where
  pub marked :
      (id : ℕ) (found : Option (ℕ × Surface))
      → find_surface backend id ≡ found
      → found ≢ none
      → RefersTo (mark_target backend context_id found) context_id id
  unfolding find_surface
  marked id none e there = absurd (there refl)
  marked id (some (index, surface)) e there =
      let (at, used, named, within, own) =
        find-some surface_slot 3 max_surfaces backend.surfaces id e in
      let new = record surface { context_id = context_id } in
      record {
        index = index;
        surface = new;
        found =
            ap (λ i. find_surface (put_surface backend index new) i) own
            ∙ find-set_self surface_slot 3 max_surfaces backend.surfaces index new at (named ∙ own)
                used fits (omega arith);
        refers = refl;
      }

  mark_target-IsMarking :
      (id : ℕ) (found : Option (ℕ × Surface))
      → find_surface backend id ≡ found
      → IsMarking backend (mark_target backend context_id found)
  unfolding find_surface
  mark_target-IsMarking id none e = record {
    same_configs = refl;
    same_contexts = refl;
    fits = fits;
    still = λ other there. there;
  }
  mark_target-IsMarking id (some (index, surface)) e =
      let (at, used, named, within, own) =
        find-some surface_slot 3 max_surfaces backend.surfaces id e in
      let new = record surface { context_id = context_id } in
      record {
        same_configs = refl;
        same_contexts = refl;
        fits = omega (arith, length-set backend.surfaces index new, fits);
        still = λ other.
            find-set_kept surface_slot 3 max_surfaces backend.surfaces index new other at
              (named ∙ own) used fits (omega arith);
      }

  -- A surface that refers to the context does so after another is marked.
  marked_still :
      (id other : ℕ) (found : Option (ℕ × Surface))
      → find_surface backend id ≡ found
      → RefersTo backend context_id other
      → RefersTo (mark_target backend context_id found) context_id other
  unfolding find_surface
  marked_still id other none e refers = refers
  marked_still id other (some (index, surface)) e refers =
      let (at, used, named, within, own) =
        find-some surface_slot 3 max_surfaces backend.surfaces id e in
      let new = record surface { context_id = context_id } in
      elim (Bool-cases (other == base_of 3 + (index + 1))) [
        | inl same ↦
            let here : id ≡ other = own ∙ sym ((==_iff other (base_of 3 + (index + 1))).0 same) in
            subst (RefersTo (put_surface backend index new) context_id) here
              (marked id (some (index, surface)) e (λ bad. absurd cc))
        | inr apart ↦ record {
          index = refers.index;
          surface = refers.surface;
          found =
              find-set_ne surface_slot 3 max_surfaces backend.surfaces index new other
                (==-false other (base_of 3 + (index + 1)) apart)
              ∙ refers.found;
          refers = refers.refers;
        }
      ]

marks_still :
    (backend : Backend) (context_id other : ℕ) (ids : List ℕ)
    → length backend.surfaces ≤ max_surfaces
    → RefersTo backend context_id other
    → RefersTo (mark_targets backend context_id ids) context_id other
marks_still backend context_id other [] fits refers = refers
marks_still backend context_id other (id ∷ ids) fits refers =
    let found = find_surface backend id in
    let kept = mark_target-IsMarking backend context_id fits id found refl in
    marks_still (mark_target backend context_id found) context_id other ids kept.fits
      (marked_still backend context_id fits id other found refl refers)

All-still :
    {before after : Backend} (ids : List ℕ)
    → IsMarking before after
    → All (λ id. find_surface before id ≢ none) ids
    → All (λ id. find_surface after id ≢ none) ids
All-still [] kept there = tt
All-still (id ∷ ids) kept (first, rest) = (kept.still id first, All-still ids kept rest)

-- Every target refers to the context in the end.
pub marks-All :
    (backend : Backend) (context_id : ℕ) (ids : List ℕ)
    → length backend.surfaces ≤ max_surfaces
    → All (λ id. find_surface backend id ≢ none) ids
    → All (RefersTo (mark_targets backend context_id ids) context_id) ids
marks-All backend context_id [] fits there = tt
marks-All backend context_id (id ∷ ids) fits (first, rest) =
    let found = find_surface backend id in
    let kept = mark_target-IsMarking backend context_id fits id found refl in
    let next = mark_target backend context_id found in
    (
      marks_still next context_id id ids kept.fits
          (marked backend context_id fits id found refl first),
      marks-All next context_id ids kept.fits (All-still ids kept rest),
    )

pub mark_targets-same :
    (backend : Backend) (context_id : ℕ) (ids : List ℕ)
    → length backend.surfaces ≤ max_surfaces
    → ((mark_targets backend context_id ids).configs ≡ backend.configs)
      × ((mark_targets backend context_id ids).contexts ≡ backend.contexts)
mark_targets-same backend context_id [] fits = (refl, refl)
mark_targets-same backend context_id (id ∷ ids) fits =
    let kept = mark_target-IsMarking backend context_id fits id (find_surface backend id) refl in
    let (configs, contexts) =
      mark_targets-same (mark_target backend context_id (find_surface backend id)) context_id ids
        kept.fits in
    (configs ∙ kept.same_configs, contexts ∙ kept.same_contexts)

pub are_targets-found :
    (backend : Backend) (config : Config) (width height : ℕ) (ids : List ℕ)
    → are_targets backend config.profile width height ids ≡ true
    → All (λ id. find_surface backend id ≢ none) ids
are_targets-found backend config width height [] h = tt
are_targets-found backend config width height (id ∷ ids) h =
    elim (Option-cases (find_surface backend id)) [
      | inl missing ↦ absurd (let bad = rw missing at h in cc)
      | inr (surface, found) ↦ (
        (λ missing. absurd (let bad = sym found ∙ missing in cc)),
        are_targets-found backend config width height ids (ground (arith, h)),
      )
    ]
