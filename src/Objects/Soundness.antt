-- ===== src/Objects/Soundness.antt =====
-- What holds of the tables of buffers, images and surfaces between two calls of src/objects.c.
use venus_vaapi_driver.Common.{
  ℕ, ◌+◌, ◌*◌, ◌≤◌, ◌<◌, ◌≡◌, ◌≢◌, sym, ap, subst, ◌∙◌, true, none, some, List, length, length-set,
  get_elem?, set, get_elem?-set_self, get_elem?-set_ne, get_elem?-lt, All, All-set, arith, ◌⊎◌,
  ◌==◌, ==_iff, ==-false, Bool-cases, inl, inr,
}
use mathlib.Core.Option.{some-injective}
use venus_vaapi_driver.VaTypes.{invalid_id}
use venus_vaapi_driver.Backend.{
  Backend, Buffer, Image, buffer_slot, image_slot, surface_slot, max_buffers, max_images,
  max_surfaces, empty_buffer, empty_surface, find_buffer, find_surface,
}
use venus_vaapi_driver.Backend.Table.{
  base_of, IsNumbered, IsNumbered-set, find-set_ne, find-set_kept,
}
use venus_vaapi_driver.Objects.{size_limit}
use venus_vaapi_driver.Objects.Buffers.{put_buffer}

-- A buffer has its elements within its capacity, and its bytes when they are its own.
pub record IsWhole (buffer : Buffer) : Type 0 where
  pub has_size : 0 < buffer.element_size
  pub has_elements : 0 < buffer.num_elements
  pub in_capacity : buffer.num_elements ≤ buffer.capacity_elements
  pub no_overflow : buffer.element_size * buffer.num_elements ≤ size_limit
  pub owned :
      buffer.owns_data ≡ true → length buffer.bytes ≡ buffer.element_size * buffer.capacity_elements

-- The tables have their lengths, each object has the ID of its slot, the buffers are whole, and
-- each image has a buffer of its own and, if it shows one, a surface.
pub record IsSound (backend : Backend) : Type 0 where
  pub buffers_sized : length backend.buffers ≡ max_buffers
  pub images_sized : length backend.images ≡ max_images
  pub surfaces_sized : length backend.surfaces ≡ max_surfaces
  pub buffers_numbered : IsNumbered buffer_slot 4 0 backend.buffers
  pub images_numbered : IsNumbered image_slot 5 0 backend.images
  pub surfaces_numbered : IsNumbered surface_slot 3 0 backend.surfaces
  pub whole : All (λ (b : Buffer). b.used ≡ true → IsWhole b) backend.buffers
  pub has_buffer :
      (index : ℕ) (image : Image)
      → get_elem? backend.images index ≡ some image
      → image.used ≡ true
      → find_buffer backend image.buffer_id ≢ none
  pub has_surface :
      (index : ℕ) (image : Image)
      → get_elem? backend.images index ≡ some image
      → image.used ≡ true
      → image.surface_id ≢ invalid_id
      → find_surface backend image.surface_id ≢ none
  pub distinct :
      (first second : ℕ) (image other : Image)
      → get_elem? backend.images first ≡ some image
      → get_elem? backend.images second ≡ some other
      → image.used ≡ true
      → other.used ≡ true
      → image.buffer_id ≡ other.buffer_id
      → first ≡ second

module _ (backend : Backend) (index : ℕ) {old : Buffer} (sound : IsSound backend)
    (there : get_elem? backend.buffers index ≡ some old) where
  -- A buffer is written to a slot, be it free or not.
  pub put_buffer-IsSound :
      (buffer : Buffer)
      → buffer.used ≡ true
      → buffer.id ≡ base_of 4 + (index + 1)
      → IsWhole buffer
      → IsSound (put_buffer backend index buffer)
  unfolding find_buffer find_surface
  put_buffer-IsSound buffer used own whole = record {
    buffers_sized = length-set backend.buffers index buffer ∙ sound.buffers_sized;
    images_sized = sound.images_sized;
    surfaces_sized = sound.surfaces_sized;
    buffers_numbered =
        IsNumbered-set buffer_slot 4 0 backend.buffers index buffer sound.buffers_numbered
          (λ u. omega (arith, own));
    images_numbered = sound.images_numbered;
    surfaces_numbered = sound.surfaces_numbered;
    whole =
        All-set (λ (b : Buffer). b.used ≡ true → IsWhole b) backend.buffers index buffer sound.whole
          (λ u. whole);
    has_buffer = λ i image at live.
        find-set_kept buffer_slot 4 max_buffers backend.buffers index buffer image.buffer_id there
          own used (omega (arith, sound.buffers_sized)) (omega arith)
          (sound.has_buffer i image at live);
    has_surface = sound.has_surface;
    distinct = sound.distinct;
  }

  -- A buffer that no image uses is cleared.
  pub clear_buffer-IsSound :
      ((i : ℕ) (image : Image)
        → get_elem? backend.images i ≡ some image
        → image.used ≡ true
        → image.buffer_id ≢ base_of 4 + (index + 1))
      → IsSound (put_buffer backend index empty_buffer)
  unfolding find_buffer find_surface
  clear_buffer-IsSound unused = record {
    buffers_sized = length-set backend.buffers index empty_buffer ∙ sound.buffers_sized;
    images_sized = sound.images_sized;
    surfaces_sized = sound.surfaces_sized;
    buffers_numbered =
        IsNumbered-set buffer_slot 4 0 backend.buffers index empty_buffer sound.buffers_numbered
          (λ u. absurd cc);
    images_numbered = sound.images_numbered;
    surfaces_numbered = sound.surfaces_numbered;
    whole =
        All-set (λ (b : Buffer). b.used ≡ true → IsWhole b) backend.buffers index empty_buffer
          sound.whole (λ u. absurd cc);
    has_buffer = λ i image at live missing. sound.has_buffer i image at live (
        sym (
          find-set_ne buffer_slot 4 max_buffers backend.buffers index empty_buffer image.buffer_id
            (unused i image at live))
        ∙ missing);
    has_surface = sound.has_surface;
    distinct = sound.distinct;
  }

abbrev pub put_image : Backend → ℕ → Image → Backend
put_image backend index image = record backend { images = set backend.images index image }

-- What a slot of a table holds after a write.
pub get_elem?-set_cases :
    (images : List Image) (index : ℕ) (new : Image) (i : ℕ) {image : Image}
    → index < length images
    → get_elem? (set images index new) i ≡ some image
    → ((i ≡ index) × (image ≡ new)) ⊎ ((i ≢ index) × (get_elem? images i ≡ some image))
get_elem?-set_cases images index new i {image} within at = elim (Bool-cases (i == index)) [
  | inl same ↦
      let e : i ≡ index = (==_iff i index).0 same in
      inl (
        e,
        sym (
            some-injective new image (
              sym (get_elem?-set_self images index new within)
              ∙ ap (λ k. get_elem? (set images index new) k) (sym e)
              ∙ at)),
      )
  | inr other ↦ inr (
    ==-false i index other,
    sym (get_elem?-set_ne images index i new (λ e. ==-false i index other (sym e))) ∙ at,
  )
]

module _ (backend : Backend) (index : ℕ) {old : Image} (sound : IsSound backend)
    (there : get_elem? backend.images index ≡ some old) where
  within : index < length backend.images
  within = get_elem?-lt backend.images index there

  -- An image is written to a slot with a buffer that no other image has.
  pub put_image-IsSound :
      (image : Image)
      → (image.used ≡ true → image.id ≡ base_of 5 + (index + 1))
      → (image.used ≡ true → find_buffer backend image.buffer_id ≢ none)
      → (image.used ≡ true
          → image.surface_id ≢ invalid_id
          → find_surface backend image.surface_id ≢ none)
      → ((i : ℕ) (other : Image)
          → get_elem? backend.images i ≡ some other
          → other.used ≡ true
          → image.used ≡ true
          → other.buffer_id ≢ image.buffer_id)
      → IsSound (put_image backend index image)
  unfolding find_buffer find_surface
  put_image-IsSound image own buffer surface apart = record {
    buffers_sized = sound.buffers_sized;
    images_sized = length-set backend.images index image ∙ sound.images_sized;
    surfaces_sized = sound.surfaces_sized;
    buffers_numbered = sound.buffers_numbered;
    images_numbered =
        IsNumbered-set image_slot 5 0 backend.images index image sound.images_numbered
          (λ u. omega (arith, own u));
    surfaces_numbered = sound.surfaces_numbered;
    whole = sound.whole;
    has_buffer = λ i other at live.
        elim (get_elem?-set_cases backend.images index image i within at) [
          | inl (e, same) ↦
              subst (λ (x : Image). find_buffer backend x.buffer_id ≢ none) (sym same)
                (buffer (ap (λ (x : Image). x.used) (sym same) ∙ live))
          | inr (moved, before) ↦ sound.has_buffer i other before live
        ];
    has_surface = λ i other at live shown.
        elim (get_elem?-set_cases backend.images index image i within at) [
          | inl (e, same) ↦
              subst (λ (x : Image). find_surface backend x.surface_id ≢ none) (sym same)
                (surface (ap (λ (x : Image). x.used) (sym same) ∙ live)
                  (λ hidden. shown (ap (λ (x : Image). x.surface_id) same ∙ hidden)))
          | inr (moved, before) ↦ sound.has_surface i other before live shown
        ];
    distinct = λ first second one two at_first at_second live_first live_second shared.
        elim (get_elem?-set_cases backend.images index image first within at_first) [
          | inl (e, same) ↦
              elim (get_elem?-set_cases backend.images index image second within at_second) [
                | inl (e', same') ↦ e ∙ sym e'
                | inr (moved, before) ↦ absurd (
                    apart second two before live_second
                      (ap (λ (x : Image). x.used) (sym same) ∙ live_first)
                      (sym shared ∙ ap (λ (x : Image). x.buffer_id) same))
              ]
          | inr (moved, before) ↦
              elim (get_elem?-set_cases backend.images index image second within at_second) [
                | inl (e', same') ↦ absurd (
                    apart first one before live_first
                      (ap (λ (x : Image). x.used) (sym same') ∙ live_second)
                      (shared ∙ ap (λ (x : Image). x.buffer_id) same'))
                | inr (moved', before') ↦
                    sound.distinct first second one two before before' live_first live_second shared
              ]
        ];
  }

module _ (backend : Backend) (index : ℕ) (sound : IsSound backend) where
  -- A surface that no image shows is cleared.
  pub clear_surface-IsSound :
      ((i : ℕ) (image : Image)
        → get_elem? backend.images i ≡ some image
        → image.used ≡ true
        → image.surface_id ≢ base_of 3 + (index + 1))
      → IsSound (record backend { surfaces = set backend.surfaces index empty_surface })
  unfolding find_buffer find_surface
  clear_surface-IsSound hidden = record {
    buffers_sized = sound.buffers_sized;
    images_sized = sound.images_sized;
    surfaces_sized = length-set backend.surfaces index empty_surface ∙ sound.surfaces_sized;
    buffers_numbered = sound.buffers_numbered;
    images_numbered = sound.images_numbered;
    surfaces_numbered =
        IsNumbered-set surface_slot 3 0 backend.surfaces index empty_surface sound.surfaces_numbered
          (λ u. absurd cc);
    whole = sound.whole;
    has_buffer = sound.has_buffer;
    has_surface = λ i image at live shown missing. sound.has_surface i image at live shown (
        sym (
          find-set_ne surface_slot 3 max_surfaces backend.surfaces index empty_surface
            image.surface_id (hidden i image at live))
        ∙ missing);
    distinct = sound.distinct;
  }
