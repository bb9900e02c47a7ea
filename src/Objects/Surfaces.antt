-- ===== src/Objects/Surfaces.antt =====
-- The creation of surfaces in src/objects.c.
use venus_vaapi_driver.Common.{
  ℕ, zero, suc, ◌+◌, ◌*◌, ◌%◌, ◌^◌, Bool, true, false, not, ◌||◌, Option, none, some, List, [], ◌∷◌,
  ltb, ◌==◌, replicate, bit_and, if◌then◌else◌,
}
use venus_vaapi_driver.Common.Results.{Result, ok, err, enomem, ◌>>=◌, ◌>>◌, fail_if}
use venus_vaapi_driver.VaTypes.{
  Fourcc, nv12, p010, other_fourcc, invalid_id, VaResult, va_ok, va_err, invalid_parameter,
  unsupported_rt_format, unsupported_memory_type, max_num_exceeded, allocation_failed,
}
use venus_vaapi_driver.Backend.{Backend, Surface, max_surfaces, empty_surface}
use venus_vaapi_driver.Backend.Table.{base_of}
use venus_vaapi_driver.Backend.Profiles.{max_width, max_height}
use venus_vaapi_driver.Encode.Rates.{min_width, min_height}
use venus_vaapi_driver.Objects.{bytes_per_sample, yuv420_size, SurfaceLayout, surface_layout}

-- `VASurfaceAttrib`: the types that the driver reads. A pixel format stands as its format.
pub data AttribValue : Type 0 where
  pixel_format : Fourcc → AttribValue
  memory_type : ℕ → AttribValue
  usage_hint : ℕ → AttribValue
  other_value : AttribValue

pub record SurfaceAttrib : Type 0 where
  pub value : AttribValue
  pub is_integer : Bool
  pub is_settable : Bool

-- What `valid_surface_attributes` writes.
pub record Wanted : Type 0 where
  pub fourcc : Fourcc
  pub exportable : Bool

abbrev pub mem_type_va : ℕ
mem_type_va = 1

abbrev pub mem_type_drm_prime_2 : ℕ
mem_type_drm_prime_2 = 0x40000000

abbrev pub usage_hint_export : ℕ
usage_hint_export = 32

abbrev pub has_flag : ℕ → ℕ → Bool
has_flag flags flag = not (bit_and flags flag == 0)

abbrev pub or_exportable : Bool → Wanted → Wanted
or_exportable asked wanted = record wanted { exportable = wanted.exportable || asked }

abbrev pub take_attribute : SurfaceAttrib → AttribValue → Wanted → Option Wanted
take_attribute attribute (pixel_format fourcc) wanted =
    if not attribute.is_integer || bytes_per_sample fourcc == 0
    then none
    else some (record wanted { fourcc = fourcc })
take_attribute attribute (memory_type types) wanted =
    if not attribute.is_integer
      || not (has_flag types mem_type_va || has_flag types mem_type_drm_prime_2)
    then none
    else some (or_exportable (has_flag types mem_type_drm_prime_2) wanted)
take_attribute attribute (usage_hint hints) wanted =
    if not attribute.is_integer
    then none
    else some (or_exportable (has_flag hints usage_hint_export) wanted)
take_attribute attribute other_value wanted = if attribute.is_settable then none else some wanted

abbrev pub continue_with : (Wanted → Option Wanted) → Option Wanted → Option Wanted
continue_with rest none = none
continue_with rest (some wanted) = rest wanted

-- `valid_surface_attributes`, from the attributes that are left on.
unfoldable pub valid_surface_attributes : List SurfaceAttrib → Wanted → Option Wanted
valid_surface_attributes [] wanted = some wanted
valid_surface_attributes (attribute ∷ attributes) wanted =
    continue_with (valid_surface_attributes attributes)
      (take_attribute attribute attribute.value wanted)

-- The size, the format and the memory that each new surface gets.
pub record SurfaceRequest : Type 0 where
  pub width : ℕ
  pub height : ℕ
  pub fourcc : Fourcc
  pub exportable : Bool
  pub capacity : ℕ

-- What the kernel and the allocator grant to the surface of each slot.
pub record Grants : Type 0 where
  pub dma : ℕ → Bool
  pub memory : ℕ → Bool

-- `allocate_dma_surface`, whose errno its caller does not read.
abbrev pub allocate_dma_surface : Bool → SurfaceRequest → Result SurfaceLayout
allocate_dma_surface granted request =
    surface_layout request.width request.height request.fourcc >>= λ layout.
    fail_if (not granted) enomem >> ok layout

abbrev pub surface_memory : Bool → SurfaceRequest → Result SurfaceLayout → Option Surface
surface_memory has_memory request (ok layout) = some (record empty_surface {
  bytes = replicate layout.allocation_size 0;
  data_size = layout.allocation_size;
  stride = layout.stride % 2 ^ 32;
  scanlines = layout.scanlines % 2 ^ 32;
  uv_offset = layout.uv_offset;
  dma_backed = true;
  gpu_native = true;
})
surface_memory has_memory request (err code) =
    if request.exportable || not has_memory
    then none
    else some (record empty_surface {
      bytes = replicate request.capacity 0;
      data_size = request.capacity;
      stride = request.width * bytes_per_sample request.fourcc % 2 ^ 32;
      scanlines = request.height;
      uv_offset = request.width * bytes_per_sample request.fourcc % 2 ^ 32 * request.height;
    })

abbrev pub named_surface : SurfaceRequest → ℕ → Surface → Surface
named_surface request index surface = record surface {
  used = true;
  id = base_of 3 + (index + 1);
  width = request.width;
  height = request.height;
  fourcc = request.fourcc;
  ready = true;
  coded_buffer_id = invalid_id;
  context_id = invalid_id;
}

-- The slots with the new surfaces in them, and their IDs.
pub record Filled : Type 0 where
  pub slots : List Surface
  pub ids : List ℕ

abbrev pub keep_slot : Surface → Option Filled → Option Filled
keep_slot surface none = none
keep_slot surface (some filled) = some (record filled { slots = surface ∷ filled.slots })

abbrev pub add_id : ℕ → Option Filled → Option Filled
add_id id none = none
add_id id (some filled) = some (record filled { ids = id ∷ filled.ids })

abbrev pub place_surface : SurfaceRequest → ℕ → Option Surface → Option Filled → Option Filled
place_surface request index none rest = none
place_surface request index (some surface) rest =
    add_id (base_of 3 + (index + 1)) (keep_slot (named_surface request index surface) rest)

-- The loop that makes surfaces in the free slots, from `index` on, while some are needed.
abbrev pub fill_slots : Grants → SurfaceRequest → (index needed : ℕ) → List Surface → Option Filled
fill_slots grants request index zero slots = some (record { slots = slots; ids = [] })
fill_slots grants request index (suc needed) [] = some (record { slots = []; ids = [] })
fill_slots grants request index (suc needed) (surface ∷ slots) = elim surface.used [
  | true ↦ keep_slot surface (fill_slots grants request (index + 1) (suc needed) slots)
  | false ↦
      place_surface request index
        (surface_memory (grants.memory index) request
          (allocate_dma_surface (grants.dma index) request))
        (fill_slots grants request (index + 1) needed slots)
]

abbrev pub count_free : List Surface → ℕ
count_free [] = 0
count_free (surface ∷ slots) = if surface.used then count_free slots else count_free slots + 1

-- A failure releases what was made, so that only free slots have been written.
abbrev pub filled_tables : Backend → Option Filled → VaResult (List ℕ × Backend)
filled_tables backend none = va_err allocation_failed
filled_tables backend (some filled) = va_ok (filled.ids, record backend { surfaces = filled.slots })

abbrev pub rt_format_yuv420 : ℕ
rt_format_yuv420 = 1

abbrev pub rt_format_yuv420_10 : ℕ
rt_format_yuv420_10 = 256

abbrev pub offers_fourcc : ℕ → Fourcc → Bool
offers_fourcc format nv12 = has_flag format rt_format_yuv420
offers_fourcc format p010 = has_flag format rt_format_yuv420_10
offers_fourcc format other_fourcc = true

abbrev pub first_fourcc : ℕ → Fourcc
first_fourcc format = if has_flag format rt_format_yuv420 then nv12 else p010

abbrev pub surfaces_of_size :
    Grants
    → Backend
    → (num_surfaces : ℕ) → Wanted
    → (width height : ℕ) → Result ℕ
    → VaResult (List ℕ × Backend)
surfaces_of_size grants backend num_surfaces wanted width height (err code) =
    va_err invalid_parameter
surfaces_of_size grants backend num_surfaces wanted width height (ok capacity) =
    if ltb (count_free backend.surfaces) num_surfaces
    then va_err max_num_exceeded
    else filled_tables backend (
        fill_slots grants
          (record {
            width = width;
            height = height;
            fourcc = wanted.fourcc;
            exportable = wanted.exportable;
            capacity = capacity;
          })
          0 num_surfaces backend.surfaces)

abbrev pub surfaces_wanted :
    Grants
    → Backend
    → (format num_surfaces width height : ℕ) → Option Wanted
    → VaResult (List ℕ × Backend)
surfaces_wanted grants backend format num_surfaces width height none =
    va_err unsupported_memory_type
surfaces_wanted grants backend format num_surfaces width height (some wanted) =
    if not (offers_fourcc format wanted.fourcc)
    then va_err unsupported_rt_format
    else surfaces_of_size grants backend num_surfaces wanted width height
        (yuv420_size width height wanted.fourcc)

abbrev pub fails {ℓ} : {A : Type ℓ} → Result A → Bool
fails (ok value) = false
fails (err code) = true

-- `create_surfaces_locked`, which answers the IDs of the surfaces.
unfoldable pub create_surfaces :
    Grants
    → Backend
    → (format width height num_surfaces : ℕ) → List SurfaceAttrib
    → VaResult (List ℕ × Backend)
create_surfaces grants backend format width height num_surfaces attributes =
    if not (has_flag format rt_format_yuv420 || has_flag format rt_format_yuv420_10)
    then va_err unsupported_rt_format
    else if num_surfaces == 0
        || ltb max_surfaces num_surfaces
        || ltb width min_width
        || ltb height min_height
        || ltb max_width width
        || ltb max_height height
        || fails (yuv420_size width height (first_fourcc format))
    then va_err invalid_parameter
    else surfaces_wanted grants backend format num_surfaces width height (
        valid_surface_attributes attributes
          (record { fourcc = first_fourcc format; exportable = false }))
