-- ===== src/Objects/Creation.antt =====
-- Surfaces that src/objects.c creates keep the tables sound, and are as many as were asked for.
use mathlib.Core.Option.{some-injective}
use venus_vaapi_driver.Common.{
  ℕ, zero, suc, ◌+◌, ◌≤◌, ◌≡◌, refl, sym, ap, subst, ◌∙◌, true, false, Option, none, some, List, [],
  ◌∷◌, length, get_elem?, arith, not, ◌||◌, ◌==◌, ltb, Bool-cases, Option-cases, inl, inr,
}
use venus_vaapi_driver.Common.Results.{Result, ok, err}
use venus_vaapi_driver.Backend.Profiles.{max_width, max_height}
use venus_vaapi_driver.Encode.Rates.{min_width, min_height}
use venus_vaapi_driver.Objects.{yuv420_size}
use venus_vaapi_driver.VaTypes.{va_ok, va_ok-injective, va_guard-eq-ok}
use venus_vaapi_driver.Backend.{
  Backend, Surface, surface_slot, max_surfaces, find_surface, find_buffer,
}
use venus_vaapi_driver.Backend.Table.{base_of, IsNumbered, find-some, find-get}
use venus_vaapi_driver.Objects.Surfaces.{
  SurfaceRequest, Grants, Filled, Wanted, SurfaceAttrib, named_surface, keep_slot, place_surface,
  fill_slots, count_free, filled_tables, surfaces_of_size, surfaces_wanted, create_surfaces,
  offers_fourcc, has_flag, rt_format_yuv420, rt_format_yuv420_10, first_fourcc, fails,
}
use venus_vaapi_driver.Objects.Soundness.{IsSound}

-- What the loop leaves of the slots from `index` on.
record IsFilled (index needed : ℕ) (before : List Surface) (filled : Filled) : Type 0 where
  sized : length filled.slots ≡ length before
  numbered : IsNumbered surface_slot 3 index before → IsNumbered surface_slot 3 index filled.slots
  kept :
      (i : ℕ) (surface : Surface)
      → get_elem? before i ≡ some surface
      → surface.used ≡ true
      → get_elem? filled.slots i ≡ some surface
  counted : needed ≤ count_free before → length filled.ids ≡ needed

keep_slot-eq-some :
    (surface : Surface) (rest : Option Filled) {filled : Filled}
    → keep_slot surface rest ≡ some filled
    → (more : Filled) × (rest ≡ some more) × (record more { slots = surface ∷ more.slots } ≡ filled)
keep_slot-eq-some surface none h = cc
keep_slot-eq-some surface (some more) h = (more, refl, some-injective _ _ h)

place_surface-eq-some :
    (request : SurfaceRequest) (index : ℕ) (memory : Option Surface) (rest : Option Filled)
    {filled : Filled}
    → place_surface request index memory rest ≡ some filled
    → (surface : Surface) × (more : Filled) × (rest ≡ some more)
      × (record {
        slots = named_surface request index surface ∷ more.slots;
        ids = (base_of 3 + (index + 1)) ∷ more.ids;
      }
          ≡ filled)
place_surface-eq-some request index none rest h = cc
place_surface-eq-some request index (some surface) none h = cc
place_surface-eq-some request index (some surface) (some more) h =
    (surface, more, refl, some-injective _ _ h)

module _ (grants : Grants) (request : SurfaceRequest) where
  kept-IsFilled :
      (index needed : ℕ) (surface : Surface) (slots : List Surface) (more : Filled)
      → surface.used ≡ true
      → IsFilled (index + 1) needed slots more
      → IsFilled index needed (surface ∷ slots) (record more { slots = surface ∷ more.slots })
  kept-IsFilled index needed surface slots more used rest = record {
    sized = ap suc rest.sized;
    numbered = λ numbered. (numbered.0, rest.numbered numbered.1);
    kept = kept;
    counted = λ enough. rest.counted (rw used at enough);
  }
    where
      kept :
          (i : ℕ) (s : Surface)
          → get_elem? (surface ∷ slots) i ≡ some s
          → s.used ≡ true
          → get_elem? (surface ∷ more.slots) i ≡ some s
      kept zero s at live = at
      kept (suc i) s at live = rest.kept i s at live

  placed-IsFilled :
      (index needed : ℕ) (surface new : Surface) (slots : List Surface) (more : Filled)
      → surface.used ≡ false
      → IsFilled (index + 1) needed slots more
      → IsFilled index (suc needed) (surface ∷ slots) (record {
        slots = named_surface request index new ∷ more.slots;
        ids = (base_of 3 + (index + 1)) ∷ more.ids;
      })
  placed-IsFilled index needed surface new slots more free rest = record {
    sized = ap suc rest.sized;
    numbered = λ numbered. ((λ u. refl), rest.numbered numbered.1);
    kept = kept;
    counted = λ enough. ap suc (rest.counted (let e = rw free at enough in omega (arith, e)));
  }
    where
      kept :
          (i : ℕ) (s : Surface)
          → get_elem? (surface ∷ slots) i ≡ some s
          → s.used ≡ true
          → get_elem? (named_surface request index new ∷ more.slots) i ≡ some s
      kept zero s at live =
          absurd (let same = ap (λ (x : Surface). x.used) (some-injective _ _ at) in cc)
      kept (suc i) s at live = rest.kept i s at live

  fill_slots-IsFilled :
      (index needed : ℕ) (slots : List Surface) {filled : Filled}
      → fill_slots grants request index needed slots ≡ some filled
      → IsFilled index needed slots filled
  fill_slots-IsFilled index zero slots h =
      subst (IsFilled index zero slots) (some-injective _ _ h) (record {
        sized = refl;
        numbered = λ numbered. numbered;
        kept = λ i s at live. at;
        counted = λ enough. refl;
      })
  fill_slots-IsFilled index (suc needed) [] h =
      subst (IsFilled index (suc needed) []) (some-injective _ _ h) (record {
        sized = refl;
        numbered = λ numbered. numbered;
        kept = λ i s at live. at;
        counted = λ enough. absurd (omega (arith, enough));
      })
  fill_slots-IsFilled index (suc needed) (surface ∷ slots) h = elim (Bool-cases surface.used) [
    | inl used ↦
        let (more, filled, same) =
          keep_slot-eq-some surface (fill_slots grants request (index + 1) (suc needed) slots)
            (rw used at h) in
        subst (IsFilled index (suc needed) (surface ∷ slots)) same (
          kept-IsFilled index (suc needed) surface slots more used
            (fill_slots-IsFilled (index + 1) (suc needed) slots filled))
    | inr free ↦
        let (new, more, filled, same) =
          place_surface-eq-some request index _ (fill_slots grants request (index + 1) needed slots)
            (rw free at h) in
        subst (IsFilled index (suc needed) (surface ∷ slots)) same (
          placed-IsFilled index needed surface new slots more free
            (fill_slots-IsFilled (index + 1) needed slots filled))
  ]

-- Tables in which the free slots of surfaces may have been filled are sound.
filled-IsSound :
    (backend : Backend) (needed : ℕ) (filled : Filled)
    → IsSound backend
    → IsFilled 0 needed backend.surfaces filled
    → IsSound (record backend { surfaces = filled.slots })
unfolding find_surface find_buffer
filled-IsSound backend needed filled sound full = record {
  buffers_sized = sound.buffers_sized;
  images_sized = sound.images_sized;
  surfaces_sized = full.sized ∙ sound.surfaces_sized;
  buffers_numbered = sound.buffers_numbered;
  images_numbered = sound.images_numbered;
  surfaces_numbered = full.numbered sound.surfaces_numbered;
  whole = sound.whole;
  has_buffer = sound.has_buffer;
  has_surface = λ i image at live shown missing.
      elim (Option-cases (find_surface backend image.surface_id)) [
        | inl none_before ↦ sound.has_surface i image at live shown none_before
        | inr ((index, surface), found) ↦
            let (there, used, named, within, own) =
              find-some surface_slot 3 max_surfaces backend.surfaces image.surface_id found in
            let still =
              find-get surface_slot 3 max_surfaces filled.slots index
                (full.numbered sound.surfaces_numbered) (full.kept index surface there used) used
                within (omega arith) in
            absurd (
              let bad =
                sym still
                ∙ ap (λ id. find_surface (record backend { surfaces = filled.slots }) id) (sym own)
                ∙ missing in
              cc)
      ];
  distinct = sound.distinct;
}

-- What a successful creation has done.
pub record IsMade (before after : Backend) (num_surfaces : ℕ) (ids : List ℕ) : Type 0 where
  pub sound : IsSound after
  pub as_many : length ids ≡ num_surfaces
  pub kept :
      (i : ℕ) (surface : Surface)
      → get_elem? before.surfaces i ≡ some surface
      → surface.used ≡ true
      → get_elem? after.surfaces i ≡ some surface

module _ (grants : Grants) (backend : Backend) (num_surfaces : ℕ) (sound : IsSound backend)
    {ids : List ℕ} {after : Backend} where
  filled_tables-IsMade :
      (request : SurfaceRequest) (made : Option Filled)
      → num_surfaces ≤ count_free backend.surfaces
      → fill_slots grants request 0 num_surfaces backend.surfaces ≡ made
      → filled_tables backend made ≡ va_ok (ids, after)
      → IsMade backend after num_surfaces ids
  filled_tables-IsMade request none enough e h = cc
  filled_tables-IsMade request (some filled) enough e h =
      let full = fill_slots-IsFilled grants request 0 num_surfaces backend.surfaces e in
      let same = va_ok-injective h in
      let result = ap (λ pair. pair.1) same in
      record {
        sound = subst IsSound result (filled-IsSound backend num_surfaces filled sound full);
        as_many = ap (λ pair. length pair.0) (sym same) ∙ full.counted enough;
        kept = λ i surface at live.
            subst (λ (b : Backend). get_elem? b.surfaces i ≡ some surface) result
              (full.kept i surface at live);
      }

  surfaces_of_size-IsMade :
      (wanted : Wanted) (width height : ℕ) (size : Result ℕ)
      → surfaces_of_size grants backend num_surfaces wanted width height size ≡ va_ok (ids, after)
      → IsMade backend after num_surfaces ids
  surfaces_of_size-IsMade wanted width height (err code) h = cc
  surfaces_of_size-IsMade wanted width height (ok capacity) h =
      let (enough, h') = va_guard-eq-ok (ltb (count_free backend.surfaces) num_surfaces) _ _ h in
      filled_tables-IsMade _ _ (ground (arith, enough)) refl h'

  surfaces_wanted-IsMade :
      (format width height : ℕ) (wanted : Option Wanted)
      → surfaces_wanted grants backend format num_surfaces width height wanted ≡ va_ok (ids, after)
      → IsMade backend after num_surfaces ids
  surfaces_wanted-IsMade format width height none h = cc
  surfaces_wanted-IsMade format width height (some wanted) h =
      let (offered, h') = va_guard-eq-ok (not (offers_fourcc format wanted.fourcc)) _ _ h in
      surfaces_of_size-IsMade wanted width height (yuv420_size width height wanted.fourcc) h'

  -- A creation of surfaces that succeeds answers as many IDs as surfaces were asked for, leaves the
  -- surfaces that were there as they are, and keeps the tables sound.
  pub create_surfaces-IsMade :
      (format width height : ℕ) (attributes : List SurfaceAttrib)
      → create_surfaces grants backend format width height num_surfaces attributes
        ≡ va_ok (ids, after)
      → IsMade backend after num_surfaces ids
  unfolding create_surfaces
  create_surfaces-IsMade format width height attributes h =
      let (known, h₁) =
        va_guard-eq-ok
          (not (has_flag format rt_format_yuv420 || has_flag format rt_format_yuv420_10)) _ _ h in
      let (valid, h₂) =
        va_guard-eq-ok
          (num_surfaces == 0
            || ltb max_surfaces num_surfaces
            || ltb width min_width
            || ltb height min_height
            || ltb max_width width
            || ltb max_height height
            || fails (yuv420_size width height (first_fourcc format)))
          _ _ h₁ in
      surfaces_wanted-IsMade format width height _ h₂
