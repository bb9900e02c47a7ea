-- ===== src/Encode/Parameters.antt =====
-- src/encode.c: the parameter buffers of a picture, from vaBeginPicture to vaEndPicture.
use venus_vaapi_driver.Common.{
  ℕ, zero, suc, ◌+◌, ◌*◌, ◌/◌, ◌%◌, bit_and, Bool, true, false, not, ◌&&◌, ◌||◌, Option, none, some,
  List, [], ◌∷◌, ltb, ◌==◌, drop, if◌then◌else◌,
}
use venus_vaapi_driver.Common.Int.{ℤ, pos}
use venus_vaapi_driver.Common.Results.{Result, ok, err, einval, enotsup, ◌>>=◌, ◌>>◌, fail_if}
use venus_vaapi_driver.VaTypes.{
  BufferType, iq_matrix, q_matrix, enc_sequence_parameter, enc_picture_parameter,
  enc_slice_parameter, enc_packed_header_parameter, enc_packed_header_payload, enc_misc_parameter,
  invalid_id,
}
use venus_vaapi_driver.Backend.{Buffer, Backend, find_buffer}
use venus_vaapi_driver.Backend.Profiles.{h264_packed_headers}
use venus_vaapi_driver.Encode.{size_max}
use venus_vaapi_driver.Encode.Rates.{parse_frame_rate}

-- `VAEncSliceParameterBufferH264`, the fields that the driver reads.
pub record SliceFields : Type 0 where
  pub slice_type : ℕ
  pub num_macroblocks : ℕ
  pub macroblock_info : ℕ
  pub slice_qp_delta : ℤ

-- `VAEncSliceParameterBufferHEVC`, the fields that the driver reads.
pub record HevcSlice : Type 0 where
  pub slice_type : ℕ
  pub slice_segment_address : ℕ
  pub num_ctu_in_slice : ℕ
  pub slice_qp_delta : ℤ

-- `VAEncPackedHeaderParameterBuffer`
pub record PackedHeader : Type 0 where
  pub header_type : ℕ
  pub bit_length : ℕ

abbrev pub packed_raw : ℕ
packed_raw = 4

-- `VAEncMiscParameterBuffer` by its type, the last standing for each type that is not named.
pub data Misc : Type 0 where
  misc_rate_control : (bits_per_second : ℕ) → Misc
  misc_frame_rate : (framerate : ℕ) → Misc
  misc_hrd misc_quality_level misc_sub_mb_part_pel misc_other : Misc

-- The layout of libva's structures, which its headers fix: sizes, and what the bytes hold.
pub record Layout : Type 0 where
  pub sequence_size : ℕ
  pub picture_size : ℕ
  pub slice_size : ℕ
  pub packed_size : ℕ
  pub matrix_size : ℕ
  pub misc_size : ℕ
  pub rate_control_size : ℕ
  pub frame_rate_size : ℕ
  pub read_slice : List ℕ → SliceFields
  pub read_hevc_slice : List ℕ → HevcSlice
  pub read_packed : List ℕ → PackedHeader
  pub read_misc : List ℕ → Misc
  pub read_idr : List ℕ → Bool

-- `buffer_bytes`. No buffer has zero elements, by which the source would divide.
abbrev pub buffer_bytes : Buffer → ℕ
buffer_bytes buffer =
    if ltb (size_max / buffer.num_elements) buffer.element_size
    then 0
    else buffer.element_size * buffer.num_elements

-- The rates that `parse_misc_parameter` writes through its pointers.
pub record Rates : Type 0 where
  pub bitrate : ℕ
  pub frames_per_second : ℕ

-- Where the parameters of a picture are collected; `sequence` and `picture` are the bytes that the
-- pointers of the source point to. `packed` is the header parameter that waits for its data.
pub record Collected : Type 0 where
  pub sequence : Option (List ℕ)
  pub picture : Option (List ℕ)
  pub rates : Rates
  pub slice_qp_delta : ℤ
  pub num_ctu_in_slice : ℕ
  pub has_slice : Bool
  pub intra : Bool
  pub has_aud : Bool
  pub packed : Option PackedHeader

abbrev pub nothing_yet : Collected
nothing_yet = record {
  sequence = none;
  picture = none;
  rates = record { bitrate = 0; frames_per_second = 0 };
  slice_qp_delta = pos 0;
  num_ctu_in_slice = 0;
  has_slice = false;
  intra = false;
  has_aud = false;
  packed = none;
}

abbrev pub is_some {ℓ} : {A : Type ℓ} → Option A → Bool
is_some none = false
is_some (some a) = true

module _ (layout : Layout) where
  abbrev parse_misc : ℕ → Misc → Rates → Result Rates
  parse_misc size (misc_rate_control bits_per_second) rates =
      fail_if (ltb size (layout.misc_size + layout.rate_control_size)) einval
      >> ok (if bits_per_second == 0 then rates else record rates { bitrate = bits_per_second })
  parse_misc size (misc_frame_rate framerate) rates =
      fail_if (ltb size (layout.misc_size + layout.frame_rate_size)) einval
      >> (parse_frame_rate framerate >>= λ rate. ok (record rates { frames_per_second = rate }))
  parse_misc size misc_hrd rates = ok rates
  parse_misc size misc_quality_level rates = ok rates
  parse_misc size misc_sub_mb_part_pel rates = ok rates
  parse_misc size misc_other rates = err enotsup

  unfoldable pub parse_misc_parameter : Buffer → Rates → Result Rates
  parse_misc_parameter buffer rates =
      fail_if (ltb (buffer_bytes buffer) layout.misc_size) einval
      >> parse_misc (buffer_bytes buffer) (layout.read_misc buffer.bytes) rates

  -- The loop of `parse_slice_parameters` over `n` elements from `bytes` on.
  abbrev parse_slices : ℕ → List ℕ → ℕ → Result (Unit {0})
  parse_slices element_size bytes zero = ok tt
  parse_slices element_size bytes (suc n) =
      let slice = layout.read_slice bytes in
      let rest = parse_slices element_size (drop element_size bytes) n in
      if slice.slice_type % 5 == 1
      then err enotsup
      else if ltb 2 (slice.slice_type % 5)
          || slice.num_macroblocks == 0
          || not (slice.macroblock_info == invalid_id)
      then err einval
      else rest

  unfoldable pub parse_slice_parameters : Buffer → Result (Unit {0})
  parse_slice_parameters buffer =
      fail_if (ltb buffer.element_size layout.slice_size) einval
      >> parse_slices buffer.element_size buffer.bytes buffer.num_elements

  -- `already present || num_elements != 1 || element_size < sizeof(...)`
  abbrev pub refused_single : Bool → Buffer → ℕ → Bool
  refused_single present buffer size =
      present || not (buffer.num_elements == 1) || ltb buffer.element_size size

  abbrev pub take_sequence : Buffer → Collected → Result Collected
  take_sequence buffer state =
      if refused_single (is_some state.sequence) buffer layout.sequence_size
      then err einval
      else ok (record state { sequence = some buffer.bytes })

  abbrev pub take_picture : Buffer → Collected → Result Collected
  take_picture buffer state =
      if refused_single (is_some state.picture) buffer layout.picture_size
      then err einval
      else ok (record state { picture = some buffer.bytes })

  abbrev pub take_slices : Buffer → Collected → Result Collected
  take_slices buffer state =
      parse_slice_parameters buffer
      >> ok (record state {
        slice_qp_delta =
            if state.has_slice
            then state.slice_qp_delta
            else (layout.read_slice buffer.bytes).slice_qp_delta;
        has_slice = true;
      })

  abbrev pub take_packed : Buffer → Collected → Result Collected
  take_packed buffer state =
      if refused_single (is_some state.packed) buffer layout.packed_size
      then err einval
      else if bit_and (layout.read_packed buffer.bytes).header_type h264_packed_headers == 0
      then err enotsup
      else ok (record state { packed = some (layout.read_packed buffer.bytes) })

  abbrev pub take_payload : Option PackedHeader → Buffer → Collected → Result Collected
  take_payload none buffer state = err einval
  take_payload (some packed) buffer state =
      if ltb (buffer_bytes buffer * 8) packed.bit_length
      then err einval
      else ok (record state {
        has_aud = if packed.header_type == packed_raw then true else state.has_aud;
        packed = none;
      })

  abbrev pub take_misc : Buffer → Collected → Result Collected
  take_misc buffer state =
      parse_misc_parameter buffer state.rates >>= λ rates. ok (record state { rates = rates })

  -- The switch of `collect_parameters`.
  abbrev pub h264_step : BufferType → Buffer → Collected → Result Collected
  h264_step enc_sequence_parameter buffer state = take_sequence buffer state
  h264_step enc_picture_parameter buffer state = take_picture buffer state
  h264_step enc_slice_parameter buffer state = take_slices buffer state
  h264_step enc_packed_header_parameter buffer state = take_packed buffer state
  h264_step enc_packed_header_payload buffer state = take_payload state.packed buffer state
  h264_step enc_misc_parameter buffer state = take_misc buffer state
  h264_step iq_matrix buffer state = ok state
  h264_step _ buffer state = err enotsup

  abbrev take_hevc_slice : HevcSlice → Buffer → Collected → Result Collected
  take_hevc_slice slice buffer state =
      if refused_single state.has_slice buffer layout.slice_size
      then err einval
      else if not (slice.slice_segment_address == 0)
          || slice.num_ctu_in_slice == 0
          || (not (slice.slice_type == 1) && not (slice.slice_type == 2))
      then err enotsup
      else ok (record state {
        slice_qp_delta = slice.slice_qp_delta;
        num_ctu_in_slice = slice.num_ctu_in_slice;
        intra = slice.slice_type == 2;
        has_slice = true;
      })

  -- The switch of `collect_hevc_parameters`, under the layout of the HEVC structures.
  abbrev pub hevc_step : BufferType → Buffer → Collected → Result Collected
  hevc_step enc_sequence_parameter buffer state = take_sequence buffer state
  hevc_step enc_picture_parameter buffer state = take_picture buffer state
  hevc_step enc_slice_parameter buffer state =
      take_hevc_slice (layout.read_hevc_slice buffer.bytes) buffer state
  hevc_step enc_packed_header_parameter buffer state = take_packed buffer state
  hevc_step enc_packed_header_payload buffer state = take_payload state.packed buffer state
  hevc_step enc_misc_parameter buffer state = take_misc buffer state
  hevc_step iq_matrix buffer state = ok state
  hevc_step _ buffer state = err enotsup

  -- The switch of `collect_vp8_parameters`, under the layout of the VP8 structures.
  abbrev pub vp8_step : BufferType → Buffer → Collected → Result Collected
  vp8_step enc_sequence_parameter buffer state = take_sequence buffer state
  vp8_step enc_picture_parameter buffer state = take_picture buffer state
  vp8_step enc_misc_parameter buffer state = take_misc buffer state
  vp8_step q_matrix buffer state =
      fail_if (refused_single false buffer layout.matrix_size) einval >> ok state
  vp8_step _ buffer state = err enotsup

-- The loop that the three collections share.
abbrev pub take_pending :
    (BufferType → Buffer → Collected → Result Collected)
    → Option (ℕ × Buffer)
    → Collected
    → Result Collected
take_pending step none state = err einval
take_pending step (some (index, buffer)) state =
    if buffer_bytes buffer == 0 then err einval else step buffer.kind buffer state

abbrev pub collect :
    (BufferType → Buffer → Collected → Result Collected)
    → Backend
    → List ℕ
    → Collected
    → Result Collected
collect step backend [] state = ok state
collect step backend (id ∷ pending) state =
    take_pending step (find_buffer backend id) state >>= collect step backend pending

abbrev pub refuse_incomplete : Collected → Result Collected
refuse_incomplete state =
    if not (is_some state.picture) || not state.has_slice || is_some state.packed
    then err einval
    else ok state

unfoldable pub collect_parameters : Layout → Backend → List ℕ → Result Collected
collect_parameters layout backend pending =
    collect (h264_step layout) backend pending nothing_yet >>= refuse_incomplete

abbrev refuse_inter_idr : Layout → Option (List ℕ) → Collected → Result Collected
refuse_inter_idr layout none state = ok state
refuse_inter_idr layout (some picture) state =
    if layout.read_idr picture && not state.intra then err enotsup else ok state

unfoldable pub collect_hevc_parameters : Layout → Backend → List ℕ → Result Collected
collect_hevc_parameters layout backend pending =
    collect (hevc_step layout) backend pending nothing_yet >>= refuse_incomplete >>= λ state.
    refuse_inter_idr layout state.picture state

unfoldable pub collect_vp8_parameters : Layout → Backend → List ℕ → Result Collected
collect_vp8_parameters layout backend pending =
    collect (vp8_step layout) backend pending nothing_yet >>= λ state.
    if not (is_some state.picture) then err einval else ok state
