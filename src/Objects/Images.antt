-- ===== src/Objects/Images.antt =====
-- The images of src/objects.c, and the destruction of the surfaces that they show.
use venus_vaapi_driver.Common.{
  ℕ, ◌+◌, ◌*◌, ◌/◌, ◌%◌, ◌^◌, Bool, true, false, not, ◌&&◌, ◌||◌, Option, none, some, List, [], ◌∷◌,
  ltb, ◌==◌, length, set, if◌then◌else◌,
}
use venus_vaapi_driver.Common.Results.{Result, ok, err}
use venus_vaapi_driver.VaTypes.{
  Fourcc, image_payload, invalid_id, VaResult, va_ok, va_err, ◌>>?◌, invalid_parameter,
  invalid_surface, invalid_image, invalid_image_format, not_enough_buffer, allocation_failed,
  max_num_exceeded, surface_busy,
}
use venus_vaapi_driver.Backend.{
  Backend, Buffer, Surface, Image, image_slot, empty_image, empty_surface, free_buffer, find_buffer,
  find_surface, find_image,
}
use venus_vaapi_driver.Backend.Table.{base_of, first_free}
use venus_vaapi_driver.Backend.Profiles.{max_width, max_height}
use venus_vaapi_driver.Objects.{bytes_per_sample, yuv420_size}
use venus_vaapi_driver.Objects.Buffers.{Allocation, allocate_buffer}

-- What an image is made from: `mapped` has the size of a surface's memory that it shows, if any.
pub record ImageRequest : Type 0 where
  pub width : ℕ
  pub height : ℕ
  pub fourcc : Fourcc
  pub mapped : Option ℕ
  pub stride : ℕ
  pub uv_offset : ℕ
  pub surface_id : ℕ

abbrev pub bad_image : ImageRequest → Bool
bad_image request =
    ltb request.stride (request.width * bytes_per_sample request.fourcc)
    || ltb request.uv_offset (request.stride * request.height)

-- The bytes that end with the chroma plane: at most `2 ^ 64` for the sizes that are let through.
abbrev pub image_end : ImageRequest → ℕ
image_end request = request.uv_offset + request.stride * (request.height / 2)

abbrev pub is_short : ImageRequest → Bool
is_short request = elim request.mapped [ none ↦ false | some size ↦ ltb size (image_end request) ]

abbrev pub image_allocation : ImageRequest → (data_size : ℕ) → Allocation
image_allocation request data_size = record {
  context_id = invalid_id;
  kind = image_payload;
  element_size = elim request.mapped [ none ↦ data_size | some size ↦ size ];
  num_elements = 1;
  bytes = none;
  owns_data = elim request.mapped [ none ↦ true | some size ↦ false ];
}

abbrev pub new_image : ImageRequest → (buffer_id index : ℕ) → Image
new_image request buffer_id index = record {
  used = true;
  id = base_of 5 + (index + 1);
  buffer_id = buffer_id;
  surface_id = request.surface_id;
  width = request.width;
  height = request.height;
  fourcc = request.fourcc;
  stride = request.stride;
  uv_offset = request.uv_offset;
}

-- The tables with an image in the slot, or with the buffer freed again if there is no slot.
abbrev pub image_at : ImageRequest → ℕ → Backend → Option ℕ → VaResult (ℕ × Backend)
image_at request buffer_index backend none = va_err max_num_exceeded
image_at request buffer_index backend (some index) = va_ok (
  base_of 5 + (index + 1),
  record backend {
    images = set backend.images index (new_image request (base_of 4 + (buffer_index + 1)) index);
  },
)

abbrev pub image_in : ImageRequest → Option (ℕ × Backend) → VaResult (ℕ × Backend)
image_in request none = va_err allocation_failed
image_in request (some (index, backend)) =
    image_at request index backend (first_free image_slot 0 backend.images)

abbrev pub sized_image :
    (has_memory : Bool) → Backend → ImageRequest → Result ℕ → VaResult (ℕ × Backend)
sized_image has_memory backend request (err code) = va_err invalid_parameter
sized_image has_memory backend request (ok data_size) =
    if bad_image request
    then va_err invalid_parameter
    else if is_short request
    then va_err not_enough_buffer
    else image_in request (allocate_buffer has_memory backend (image_allocation request data_size))

-- `create_image_locked`, which answers the ID of the image. A failure leaves the tables as they
-- are, since it frees the buffer that it has made.
unfoldable pub create_image_locked :
    (has_memory : Bool) → Backend → ImageRequest → VaResult (ℕ × Backend)
create_image_locked has_memory backend request =
    if ltb max_width request.width || ltb max_height request.height
    then va_err invalid_parameter
    else sized_image has_memory backend request
        (yuv420_size request.width request.height request.fourcc)

-- `backend_create_image`, of a width and a height that are not negative.
unfoldable pub create_image :
    (has_memory : Bool) → Backend → Fourcc → (width height : ℕ) → VaResult (ℕ × Backend)
create_image has_memory backend fourcc width height =
    if bytes_per_sample fourcc == 0
    then va_err invalid_image_format
    else create_image_locked has_memory backend (record {
      width = width;
      height = height;
      fourcc = fourcc;
      mapped = none;
      stride = width * bytes_per_sample fourcc % 2 ^ 32;
      uv_offset = width * height * bytes_per_sample fourcc;
      surface_id = invalid_id;
    })

abbrev pub derived_request : Surface → ImageRequest
derived_request surface = record {
  width = surface.width;
  height = surface.height;
  fourcc = surface.fourcc;
  mapped = some (length surface.bytes);
  stride = surface.stride;
  uv_offset = surface.uv_offset;
  surface_id = surface.id;
}

abbrev pub derive_found :
    (has_memory : Bool) → Backend → Option (ℕ × Surface) → VaResult (ℕ × Backend)
derive_found has_memory backend none = va_err invalid_surface
derive_found has_memory backend (some (index, surface)) =
    if not surface.ready
    then va_err surface_busy
    else create_image_locked has_memory backend (derived_request surface)

-- `backend_derive_image`
unfoldable pub derive_image :
    (has_memory : Bool) → Backend → (surface_id : ℕ) → VaResult (ℕ × Backend)
derive_image has_memory backend surface_id =
    derive_found has_memory backend (find_surface backend surface_id)

abbrev pub released_image : Backend → (image_index buffer_index : ℕ) → Buffer → Backend
released_image backend image_index buffer_index buffer = record backend {
  buffers = set backend.buffers buffer_index (free_buffer buffer);
  images = set backend.images image_index empty_image;
}

abbrev pub release_image : Backend → ℕ → Option (ℕ × Buffer) → VaResult Backend
release_image backend image_index none = va_err surface_busy
release_image backend image_index (some (index, buffer)) =
    if not (buffer.map_count == 0)
    then va_err surface_busy
    else va_ok (released_image backend image_index index buffer)

abbrev pub destroy_image_found : Backend → Option (ℕ × Image) → VaResult Backend
destroy_image_found backend none = va_err invalid_image
destroy_image_found backend (some (index, image)) =
    release_image backend index (find_buffer backend image.buffer_id)

-- `backend_destroy_image`
unfoldable pub destroy_image : Backend → (id : ℕ) → VaResult Backend
destroy_image backend id = destroy_image_found backend (find_image backend id)

-- `surface_has_image`
unfoldable pub surface_has_image : ℕ → List Image → Bool
surface_has_image id [] = false
surface_has_image id (image ∷ images) =
    image.used && image.surface_id == id || surface_has_image id images

abbrev pub is_busy : Backend → Surface → Bool
is_busy backend surface =
    surface.encode_pending
    || not (surface.context_id == invalid_id)
    || surface_has_image surface.id backend.images

abbrev pub check_found : Backend → Option (ℕ × Surface) → VaResult (Unit {0})
check_found backend none = va_err invalid_surface
check_found backend (some (index, surface)) =
    if is_busy backend surface then va_err surface_busy else va_ok tt

-- The first loop of `backend_destroy_surfaces`, which tests every surface.
abbrev pub check_destroyed : Backend → List ℕ → VaResult (Unit {0})
check_destroyed backend [] = va_ok tt
check_destroyed backend (id ∷ ids) =
    check_found backend (find_surface backend id) >>? λ passed. check_destroyed backend ids

-- `release_surface`, of the surface that an ID names. A null pointer is none.
abbrev pub release_found : Backend → Option (ℕ × Surface) → Backend
release_found backend none = backend
release_found backend (some (index, surface)) = record backend {
  surfaces = set backend.surfaces index empty_surface;
}

-- The second loop, which releases them.
abbrev pub release_each : Backend → List ℕ → Backend
release_each backend [] = backend
release_each backend (id ∷ ids) = release_each (release_found backend (find_surface backend id)) ids

-- `backend_destroy_surfaces`
unfoldable pub destroy_surfaces : Backend → (ids : List ℕ) → VaResult Backend
destroy_surfaces backend ids =
    check_destroyed backend ids >>? λ passed. va_ok (release_each backend ids)
