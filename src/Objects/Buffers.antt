-- ===== src/Objects/Buffers.antt =====
-- The buffers of src/objects.c as objects: creation, resizing, mapping and destruction.
use venus_vaapi_driver.Common.{
  ℕ, ◌+◌, ◌-◌, ◌*◌, ◌/◌, ◌^◌, Bool, true, false, not, ◌&&◌, ◌||◌, Option, none, some, List, [], ◌∷◌,
  ◌++◌, ltb, ◌==◌, set, replicate, overwrite, if◌then◌else◌,
}
use venus_vaapi_driver.Common.Results.{Result, ok, err}
use venus_vaapi_driver.VaTypes.{
  BufferType, enc_coded, invalid_id, VaResult, va_ok, va_err, invalid_parameter, invalid_context,
  invalid_buffer, allocation_failed,
}
use venus_vaapi_driver.Backend.{
  Backend, Buffer, Context, Image, buffer_slot, empty_buffer, free_buffer, find_buffer,
  find_context, find_surface, status_from_errno,
}
use venus_vaapi_driver.Backend.Table.{base_of, first_free}
use venus_vaapi_driver.Objects.{size_limit}

abbrev pub put_buffer : Backend → ℕ → Buffer → Backend
put_buffer backend index buffer = record backend { buffers = set backend.buffers index buffer }

-- What a request for a buffer holds: `bytes` is what `data` points to, if it is no null pointer.
pub record Allocation : Type 0 where
  pub context_id : ℕ
  pub kind : BufferType
  pub element_size : ℕ
  pub num_elements : ℕ
  pub bytes : Option (List ℕ)
  pub owns_data : Bool

abbrev pub initial_bytes : ℕ → Option (List ℕ) → List ℕ
initial_bytes size none = replicate size 0
initial_bytes size (some bytes) = overwrite (replicate size 0) bytes

-- Memory that the buffer does not own is that of a surface, and is not repeated here.
abbrev pub new_buffer : Allocation → ℕ → Buffer
new_buffer request index = record empty_buffer {
  used = true;
  id = base_of 4 + (index + 1);
  context_id = request.context_id;
  kind = request.kind;
  element_size = request.element_size;
  capacity_elements = request.num_elements;
  num_elements = request.num_elements;
  bytes =
      if request.owns_data
      then initial_bytes (request.element_size * request.num_elements) request.bytes
      else [];
  owns_data = request.owns_data;
  source_surface_id = invalid_id;
}

abbrev pub bad_size : Allocation → Bool
bad_size request =
    request.element_size == 0
    || request.num_elements == 0
    || ltb (size_limit / request.num_elements) request.element_size

abbrev pub allocate_at :
    (has_memory : Bool) → Backend → Allocation → Option ℕ → Option (ℕ × Backend)
allocate_at has_memory backend request none = none
allocate_at has_memory backend request (some index) =
    if request.owns_data && not has_memory
    then none
    else some (index, put_buffer backend index (new_buffer request index))

-- `allocate_buffer`: the index of the slot, and the tables with the buffer in it.
unfoldable pub allocate_buffer : (has_memory : Bool) → Backend → Allocation → Option (ℕ × Backend)
allocate_buffer has_memory backend request =
    if bad_size request
    then none
    else allocate_at has_memory backend request (first_free buffer_slot 0 backend.buffers)

abbrev pub created_id : Option (ℕ × Backend) → VaResult (ℕ × Backend)
created_id none = va_err allocation_failed
created_id (some (index, backend)) = va_ok (base_of 4 + (index + 1), backend)

abbrev pub in_context : Option (ℕ × Context) → VaResult (ℕ × Backend) → VaResult (ℕ × Backend)
in_context none rest = va_err invalid_context
in_context (some context) rest = rest

-- `backend_create_buffer`, which answers the ID of the buffer.
unfoldable pub create_buffer :
    (has_memory : Bool)
    → Backend
    → (context_id : ℕ) → BufferType
    → (size num_elements : ℕ) → Option (List ℕ)
    → VaResult (ℕ × Backend)
create_buffer has_memory backend context_id kind size num_elements bytes =
    if size == 0 || num_elements == 0
    then va_err invalid_parameter
    else in_context (find_context backend context_id) (
        created_id (
          allocate_buffer has_memory backend (record {
            context_id = context_id;
            kind = kind;
            element_size = size;
            num_elements = num_elements;
            bytes = bytes;
            owns_data = true;
          })))

abbrev pub holds_coded : BufferType → Bool
holds_coded kind = elim kind [ enc_coded ↦ true | _ ↦ false ]

-- A capacity that is too small is enlarged, the new bytes being 0.
abbrev pub grown : Buffer → (num_elements : ℕ) → Buffer
grown buffer num_elements = record buffer {
  bytes =
      buffer.bytes
      ++ replicate
          (num_elements * buffer.element_size - buffer.capacity_elements * buffer.element_size) 0;
  capacity_elements = num_elements;
}

abbrev pub resized : (has_memory : Bool) → Buffer → (num_elements : ℕ) → VaResult Buffer
resized has_memory buffer num_elements =
    if not buffer.owns_data || holds_coded buffer.kind
    then va_err invalid_buffer
    else if ltb (size_limit / buffer.element_size) num_elements
    then va_err allocation_failed
    else if not (ltb buffer.capacity_elements num_elements)
    then va_ok (record buffer { num_elements = num_elements })
    else if not has_memory
    then va_err allocation_failed
    else va_ok (record (grown buffer num_elements) { num_elements = num_elements })

-- The answer of a change to the buffer of a slot, and the tables that it leaves.
abbrev pub store_buffer : Backend → ℕ → VaResult Buffer → VaResult Backend
store_buffer backend index (va_err status) = va_err status
store_buffer backend index (va_ok buffer) = va_ok (put_buffer backend index buffer)

abbrev pub change_buffer :
    Backend → (ℕ → Buffer → VaResult Buffer) → Option (ℕ × Buffer) → VaResult Backend
change_buffer backend change none = va_err invalid_buffer
change_buffer backend change (some (index, buffer)) =
    store_buffer backend index (change index buffer)

-- `backend_set_num_elements`
unfoldable pub set_num_elements :
    (has_memory : Bool) → Backend → (id num_elements : ℕ) → VaResult Backend
set_num_elements has_memory backend id num_elements =
    if num_elements == 0
    then va_err invalid_parameter
    else change_buffer backend (λ index buffer. resized has_memory buffer num_elements)
        (find_buffer backend id)

-- `backend_buffer_info`
abbrev pub info_of : Option (ℕ × Buffer) → VaResult (BufferType × ℕ × ℕ)
info_of none = va_err invalid_buffer
info_of (some (index, buffer)) =
    if ltb (2 ^ 32 - 1) buffer.element_size || ltb (2 ^ 32 - 1) buffer.num_elements
    then va_err invalid_buffer
    else va_ok (buffer.kind, buffer.element_size, buffer.num_elements)

unfoldable pub buffer_info : Backend → (id : ℕ) → VaResult (BufferType × ℕ × ℕ)
buffer_info backend id = info_of (find_buffer backend id)

abbrev pub is_for_buffer : ℕ → Image → Bool
is_for_buffer id image = image.used && image.buffer_id == id

-- `buffer_used_by_image`
unfoldable pub buffer_used_by_image : ℕ → List Image → Bool
buffer_used_by_image id [] = false
buffer_used_by_image id (image ∷ images) = is_for_buffer id image || buffer_used_by_image id images

-- `surface_for_image_buffer`: the ID of the surface whose memory an image's buffer is.
unfoldable pub image_surface : ℕ → List Image → Option ℕ
image_surface id [] = none
image_surface id (image ∷ images) =
    let rest = image_surface id images in
    if is_for_buffer id image && not (image.surface_id == invalid_id)
    then some image.surface_id
    else rest

abbrev pub found_surface : Backend → Option ℕ → Bool
found_surface backend none = false
found_surface backend (some id) = elim (find_surface backend id) [
  | none ↦ false
  | some surface ↦ true
]

-- The access that is begun and ended with the first and the last mapping: its status, if any.
abbrev pub access_status : Backend → (id count : ℕ) → Result (Unit {0}) → Result (Unit {0})
access_status backend id count answer =
    if found_surface backend (image_surface id backend.images) && count == 0 then answer else ok tt

-- `return venus_backend_status_from_errno(status);` on failure
abbrev pub with_status {ℓ} : {A : Type ℓ} → Result (Unit {0}) → A → VaResult A
with_status (err code) value = va_err (status_from_errno code)
with_status (ok done) value = va_ok value

abbrev pub map_plain : Backend → (access : Result (Unit {0})) → ℕ → Buffer → VaResult Buffer
map_plain backend access index buffer =
    if buffer.map_count == 2 ^ 32 - 1
    then va_err invalid_buffer
    else with_status (access_status backend buffer.id buffer.map_count access)
        (record buffer { map_count = buffer.map_count + 1 })

-- `backend_map_buffer`, of a buffer that holds no coded data.
unfoldable pub map_buffer : Backend → (access : Result (Unit {0})) → (id : ℕ) → VaResult Backend
map_buffer backend access id =
    change_buffer backend (map_plain backend access) (find_buffer backend id)

-- The status that `backend_unmap_buffer` answers, with the tables that it leaves in either case.
abbrev pub unmap_found :
    Backend → (access : Result (Unit {0})) → Option (ℕ × Buffer) → Backend × VaResult (Unit {0})
unmap_found backend access none = (backend, va_err invalid_buffer)
unmap_found backend access (some (index, buffer)) =
    if buffer.map_count == 0 then (backend, va_err invalid_buffer) else (
      put_buffer backend index (record buffer { map_count = buffer.map_count - 1 }),
      with_status (access_status backend buffer.id (buffer.map_count - 1) access) tt,
    )

unfoldable pub unmap_buffer :
    Backend → (access : Result (Unit {0})) → (id : ℕ) → Backend × VaResult (Unit {0})
unmap_buffer backend access id = unmap_found backend access (find_buffer backend id)

abbrev pub freed : Backend → ℕ → Buffer → VaResult Buffer
freed backend index buffer =
    if not (buffer.map_count == 0) || buffer_used_by_image buffer.id backend.images
    then va_err invalid_buffer
    else va_ok (free_buffer buffer)

-- `backend_destroy_buffer`, of a buffer that holds no coded data.
unfoldable pub destroy_buffer : Backend → (id : ℕ) → VaResult Backend
destroy_buffer backend id = change_buffer backend (freed backend) (find_buffer backend id)
