-- ===== src/Objects/Hiding.antt =====
-- Images and surfaces that src/objects.c destroys leave the tables sound.
use mathlib.Core.Option.{some-injective}
use venus_vaapi_driver.Common.{
  ℕ, zero, suc, ◌+◌, ◌≡◌, ◌≢◌, refl, sym, ap, subst, ◌∙◌, true, false, not, Option, none, some,
  List, [], ◌∷◌, get_elem?, get_elem?-lt, arith, ◌==◌, inl, inr,
}
use venus_vaapi_driver.VaTypes.{va_ok, va_ok-injective, va_guard-eq-ok, >>?-eq-ok}
use venus_vaapi_driver.Backend.{
  Backend, Buffer, Image, Surface, buffer_slot, image_slot, surface_slot, max_buffers, max_images,
  max_surfaces, find_buffer, find_surface, find_image, free_buffer, empty_image,
}
use venus_vaapi_driver.Backend.Table.{base_of, find-some}
use venus_vaapi_driver.Objects.Images.{
  released_image, release_image, destroy_image_found, destroy_image, surface_has_image, is_busy,
  check_found, check_destroyed, release_found, release_each, destroy_surfaces,
}
use venus_vaapi_driver.Objects.Soundness.{
  IsSound, get_elem?-set_cases, put_image, clear_surface-IsSound, put_image-IsSound,
  clear_buffer-IsSound,
}

module _ (backend : Backend) (sound : IsSound backend) where
  released-IsSound :
      (index buffer_index : ℕ) (image : Image) (buffer : Buffer)
      → get_elem? backend.images index ≡ some image
      → image.used ≡ true
      → get_elem? backend.buffers buffer_index ≡ some buffer
      → buffer.used ≡ true
      → image.buffer_id ≡ base_of 4 + (buffer_index + 1)
      → IsSound (released_image backend index buffer_index buffer)
  unfolding free_buffer
  released-IsSound index buffer_index image buffer at live there used own =
      let within = get_elem?-lt backend.images index at in
      let emptied =
        put_image-IsSound backend index sound at empty_image (λ u. absurd cc) (λ u. absurd cc)
          (λ u. absurd cc) (λ i other at' live' u. absurd cc) in
      rw used (
        clear_buffer-IsSound (put_image backend index empty_image) buffer_index emptied there
          (λ i other at' live' same.
            elim (get_elem?-set_cases backend.images index empty_image i within at') [
              | inl (e, gone) ↦
                  absurd (let bad = ap (λ (x : Image). x.used) (sym gone) ∙ live' in cc)
              | inr (moved, before) ↦
                  moved (sound.distinct i index other image before at live' live (same ∙ sym own))
            ]))

  released :
      (index : ℕ) (image : Image) {after : Backend}
      → get_elem? backend.images index ≡ some image
      → image.used ≡ true
      → (found : Option (ℕ × Buffer)) → find_buffer backend image.buffer_id ≡ found
      → release_image backend index found ≡ va_ok after
      → IsSound after
  unfolding find_buffer
  released index image at live none e h = cc
  released index image at live (some (buffer_index, buffer)) e h =
      let (there, used, named, within, own) =
        find-some buffer_slot 4 max_buffers backend.buffers image.buffer_id e in
      let (idle, freed) = va_guard-eq-ok (not (buffer.map_count == 0)) _ _ h in
      subst IsSound (va_ok-injective freed)
        (released-IsSound index buffer_index image buffer at live there used own)

  destroy_image_found-IsSound :
      (id : ℕ) (found : Option (ℕ × Image)) {after : Backend}
      → find_image backend id ≡ found
      → destroy_image_found backend found ≡ va_ok after
      → IsSound after
  unfolding find_image
  destroy_image_found-IsSound id none e h = cc
  destroy_image_found-IsSound id (some (index, image)) e h =
      let (there, used, named, within, own) =
        find-some image_slot 5 max_images backend.images id e in
      released index image there used (find_buffer backend image.buffer_id) refl h

-- An image that is destroyed keeps the tables sound: its buffer goes with it, and no other's.
pub destroy_image-IsSound :
    (backend : Backend) (id : ℕ) {after : Backend}
    → IsSound backend
    → destroy_image backend id ≡ va_ok after
    → IsSound after
unfolding destroy_image
destroy_image-IsSound backend id sound h =
    destroy_image_found-IsSound backend sound id (find_image backend id) refl h

-- The surfaces that `backend_destroy_surfaces` lets through.
IsHidden : Backend → ℕ → Type 0
IsHidden backend id =
    (i : ℕ) (image : Image)
    → get_elem? backend.images i ≡ some image
    → image.used ≡ true
    → image.surface_id ≢ id

hidden_images :
    (id : ℕ) (images : List Image) (i : ℕ) {image : Image}
    → surface_has_image id images ≡ false
    → get_elem? images i ≡ some image
    → image.used ≡ true
    → image.surface_id ≢ id
unfolding surface_has_image
hidden_images id [] i hidden at live = cc
hidden_images id (x ∷ images) zero {image} hidden at live =
    let e = some-injective x image at in λ same. ground (arith, hidden, e, live, same)
hidden_images id (x ∷ images) (suc i) hidden at live =
    hidden_images id images i (ground (arith, hidden)) at live

checked-IsHidden :
    (backend : Backend) (id : ℕ) (found : Option (ℕ × Surface)) {done : Unit {0}}
    → find_surface backend id ≡ found
    → check_found backend found ≡ va_ok done
    → IsHidden backend id
unfolding find_surface IsHidden
checked-IsHidden backend id none e h = cc
checked-IsHidden backend id (some (index, surface)) e h =
    let (there, used, named, within, own) =
      find-some surface_slot 3 max_surfaces backend.surfaces id e in
    let (idle, passed) = va_guard-eq-ok (is_busy backend surface) _ _ h in
    λ i image at live same.
      hidden_images surface.id backend.images i (ground (arith, idle)) at live (same ∙ sym named)

release_found-IsSound :
    (backend : Backend) (id : ℕ) (found : Option (ℕ × Surface))
    → IsSound backend
    → find_surface backend id ≡ found
    → IsHidden backend id
    → IsSound (release_found backend found)
      × ((release_found backend found).images ≡ backend.images)
unfolding find_surface IsHidden
release_found-IsSound backend id none sound e hidden = (sound, refl)
release_found-IsSound backend id (some (index, surface)) sound e hidden =
    let (there, used, named, within, own) =
      find-some surface_slot 3 max_surfaces backend.surfaces id e in
    (
      clear_surface-IsSound backend index sound
          (λ i image at live same. hidden i image at live (same ∙ sym own)),
      refl,
    )

release_each-IsSound :
    (backend checked : Backend) (ids : List ℕ) {done : Unit {0}}
    → IsSound backend
    → backend.images ≡ checked.images
    → check_destroyed checked ids ≡ va_ok done
    → IsSound (release_each backend ids)
unfolding IsHidden
release_each-IsSound backend checked [] sound same h = sound
release_each-IsSound backend checked (id ∷ ids) sound same h =
    let (passed, one, rest) = >>?-eq-ok (check_found checked (find_surface checked id)) _ h in
    let hidden : IsHidden backend id = λ i image at live.
      checked-IsHidden checked id (find_surface checked id) refl one i image
        (subst (λ images. get_elem? images i ≡ some image) same at) live in
    let (kept, images) =
      release_found-IsSound backend id (find_surface backend id) sound refl hidden in
    release_each-IsSound (release_found backend (find_surface backend id)) checked ids kept
      (images ∙ same) rest

-- Surfaces that are destroyed keep the tables sound: no image loses the surface that it shows.
pub destroy_surfaces-IsSound :
    (backend : Backend) (ids : List ℕ) {after : Backend}
    → IsSound backend
    → destroy_surfaces backend ids ≡ va_ok after
    → IsSound after
unfolding destroy_surfaces
destroy_surfaces-IsSound backend ids sound h =
    let (passed, checked, e) = >>?-eq-ok (check_destroyed backend ids) _ h in
    subst IsSound (va_ok-injective e) (release_each-IsSound backend backend ids sound refl checked)
