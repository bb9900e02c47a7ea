-- ===== src/Objects/Lifetimes.antt =====
-- The tables that the calls of src/objects.c on buffers, images and surfaces lead to.
use venus_vaapi_driver.Common.{
  ℕ, ◌≡◌, refl, true, Option, some, List, get_elem?, length-replicate, All-replicate, All-get,
  replicate, Bool, false,
}
use venus_vaapi_driver.Common.Results.{Result}
use venus_vaapi_driver.VaTypes.{Attrib, Entrypoint, Profile, Fourcc, BufferType, va_ok}
use venus_vaapi_driver.Capabilities.{Capabilities}
use venus_vaapi_driver.Backend.{
  Backend, Buffer, Image, create, buffer_slot, image_slot, surface_slot, max_buffers, max_images,
  max_surfaces, empty_buffer, empty_image, empty_surface,
}
use venus_vaapi_driver.Backend.Table.{IsNumbered-replicate}
use venus_vaapi_driver.Objects.Buffers.{
  create_buffer, set_num_elements, map_buffer, unmap_buffer, destroy_buffer,
}
use venus_vaapi_driver.Objects.Images.{create_image, derive_image, destroy_image, destroy_surfaces}
use venus_vaapi_driver.Objects.Surfaces.{Grants, SurfaceAttrib, create_surfaces}
use venus_vaapi_driver.V4l2Decoder.Device.{Device}
use venus_vaapi_driver.Decode.Contexts.{Started, create_context}
use venus_vaapi_driver.Backend.Configs.{create_config, destroy_config}
use venus_vaapi_driver.Objects.Marking.{
  create_config-IsSound, destroy_config-IsSound, create_context-IsSound,
}
use venus_vaapi_driver.Objects.Soundness.{IsWhole, IsSound}
use venus_vaapi_driver.Objects.Ownership.{
  map_buffer-IsSound, unmap_buffer-IsSound, destroy_buffer-IsSound,
}
use venus_vaapi_driver.Objects.Resizing.{set_num_elements-IsSound}
use venus_vaapi_driver.Objects.Allocation.{create_buffer-IsSound}
use venus_vaapi_driver.Objects.Showing.{create_image-IsSound, derive_image-IsSound}
use venus_vaapi_driver.Objects.Hiding.{destroy_image-IsSound, destroy_surfaces-IsSound}
use venus_vaapi_driver.Objects.Creation.{create_surfaces-IsMade}

-- One call that succeeds, or an unmapping, whose failure changes the count all the same.
pub data Call : Backend → Backend → Type 0 where
  makes_config :
      {before after : Backend} (variable : Option (List ℕ)) (profile : Profile)
      (entrypoint : Entrypoint) (attributes : List Attrib) {id : ℕ}
      → create_config before variable profile entrypoint attributes ≡ va_ok (after, id)
      → Call before after
  frees_config :
      {before after : Backend} (id : ℕ) → destroy_config before id ≡ va_ok after → Call before after
  makes_context :
      {before : Backend} (device : Device) (config_id width height : ℕ) (targets : List ℕ)
      {made : Started}
      → create_context device before config_id width height targets ≡ va_ok made
      → Call before made.backend
  makes_surfaces :
      {before after : Backend} (grants : Grants) (format width height num_surfaces : ℕ)
      (attributes : List SurfaceAttrib) {ids : List ℕ}
      → create_surfaces grants before format width height num_surfaces attributes
        ≡ va_ok (ids, after)
      → Call before after
  frees_surfaces :
      {before after : Backend} (ids : List ℕ)
      → destroy_surfaces before ids ≡ va_ok after
      → Call before after
  makes_buffer :
      {before after : Backend} (has_memory : Bool) (context_id : ℕ) (kind : BufferType)
      (size num_elements : ℕ) (bytes : Option (List ℕ)) {id : ℕ}
      → create_buffer has_memory before context_id kind size num_elements bytes ≡ va_ok (id, after)
      → Call before after
  resizes :
      {before after : Backend} (has_memory : Bool) (id num_elements : ℕ)
      → set_num_elements has_memory before id num_elements ≡ va_ok after
      → Call before after
  maps :
      {before after : Backend} (access : Result (Unit {0})) (id : ℕ)
      → map_buffer before access id ≡ va_ok after
      → Call before after
  unmaps :
      {before : Backend} (access : Result (Unit {0})) (id : ℕ)
      → Call before (unmap_buffer before access id).0
  frees_buffer :
      {before after : Backend} (id : ℕ) → destroy_buffer before id ≡ va_ok after → Call before after
  makes_image :
      {before after : Backend} (has_memory : Bool) (fourcc : Fourcc) (width height : ℕ) {id : ℕ}
      → create_image has_memory before fourcc width height ≡ va_ok (id, after)
      → Call before after
  derives :
      {before after : Backend} (has_memory : Bool) (surface_id : ℕ) {id : ℕ}
      → derive_image has_memory before surface_id ≡ va_ok (id, after)
      → Call before after
  frees_image :
      {before after : Backend} (id : ℕ) → destroy_image before id ≡ va_ok after → Call before after

pub Call-IsSound : {before after : Backend} → Call before after → IsSound before → IsSound after
Call-IsSound {before} (makes_config variable profile entrypoint attributes e) sound =
    create_config-IsSound before variable profile entrypoint attributes sound e
Call-IsSound {before} (frees_config id e) sound = destroy_config-IsSound before id sound e
Call-IsSound {before} (makes_context device config_id width height targets e) sound =
    create_context-IsSound device before config_id width height targets sound e
Call-IsSound {before} (makes_surfaces grants format width height num_surfaces attributes e) sound =
    (create_surfaces-IsMade grants before num_surfaces sound format width height attributes e).sound
Call-IsSound {before} (frees_surfaces ids e) sound = destroy_surfaces-IsSound before ids sound e
Call-IsSound {before} (makes_buffer has_memory context_id kind size num_elements bytes e) sound =
    create_buffer-IsSound has_memory before context_id kind size num_elements bytes sound e
Call-IsSound {before} (resizes has_memory id num_elements e) sound =
    set_num_elements-IsSound has_memory before id num_elements sound e
Call-IsSound {before} (maps access id e) sound = map_buffer-IsSound before access id sound e
Call-IsSound {before} (unmaps access id) sound = unmap_buffer-IsSound before access id sound
Call-IsSound {before} (frees_buffer id e) sound = destroy_buffer-IsSound before id sound e
Call-IsSound {before} (makes_image has_memory fourcc width height e) sound =
    create_image-IsSound has_memory before fourcc width height sound e
Call-IsSound {before} (derives has_memory surface_id e) sound =
    derive_image-IsSound has_memory before surface_id sound e
Call-IsSound {before} (frees_image id e) sound = destroy_image-IsSound before id sound e

-- The tables that a sequence of calls leads to, from those of a new backend.
pub data Reachable (caps : Capabilities) : Backend → Type 0 where
  created : Reachable caps (create caps)
  called :
      {before after : Backend} → Reachable caps before → Call before after → Reachable caps after

create-IsSound : (caps : Capabilities) → IsSound (create caps)
unfolding create
create-IsSound caps = record {
  buffers_sized = length-replicate max_buffers empty_buffer;
  images_sized = length-replicate max_images empty_image;
  surfaces_sized = length-replicate max_surfaces empty_surface;
  buffers_numbered = IsNumbered-replicate buffer_slot 4 0 max_buffers empty_buffer refl;
  images_numbered = IsNumbered-replicate image_slot 5 0 max_images empty_image refl;
  surfaces_numbered = IsNumbered-replicate surface_slot 3 0 max_surfaces empty_surface refl;
  whole =
      All-replicate (λ (b : Buffer). b.used ≡ true → IsWhole b) max_buffers empty_buffer
        (λ u. absurd cc);
  has_buffer = λ i image at live. absurd (no_image i image at live);
  has_surface = λ i image at live shown. absurd (no_image i image at live);
  distinct =
      λ first second image other at at' live live' same. absurd (no_image first image at live);
}
  where
    no_image :
        (i : ℕ) (image : Image)
        → get_elem? (replicate max_images empty_image) i ≡ some image
        → image.used ≡ true
        → ⊥
    no_image i image at live = absurd (
        let off =
          All-get (λ (x : Image). x.used ≡ false) (replicate max_images empty_image) i
            (All-replicate (λ (x : Image). x.used ≡ false) max_images empty_image refl) at in
        cc)

pub Reachable-IsSound :
    {caps : Capabilities} {backend : Backend} → Reachable caps backend → IsSound backend
Reachable-IsSound {caps} created = create-IsSound caps
Reachable-IsSound (called before call) = Call-IsSound call (Reachable-IsSound before)
