-- ===== src/Backend/Asked.antt =====
-- What a caller of backend_create_config in src/backend.c asks for.
use venus_vaapi_driver.Common.{
  if◌then◌else◌, not, ◌&&◌, ◌==◌, bit_and, ap, ℕ, ◌≡◌, refl, sym, true, false, List, [], ◌∷◌,
  Bool-cases, inl, inr,
}
use venus_vaapi_driver.VaTypes.{
  rt_yuv420, rt_yuv420_10, slice_mode_normal, hevc_main10, vld, eq_profile, enc_max_ref_frames,
  enc_max_slices, max_picture_width, max_picture_height, other_attrib, enc_packed_headers,
  dec_slice_mode, va_guard-eq-ok, rt_format, rc_vbr, enc_slice, rt_format, AttribType,
  eq_entrypoint, Profile, Entrypoint, va_ok, va_ok-injective, >>?-eq-ok, Attrib,
}
use venus_vaapi_driver.Backend.{Bool}
use venus_vaapi_driver.Backend.Configs.{
  rt_format_of, check_attribute, Described, Chosen, check_attributes, default_choice, new_config,
  describe,
}

-- The value of the last attribute of a kind, or a default if there is none.
pub last_value : (AttribType → Bool) → (default : ℕ) → List Attrib → ℕ
last_value is_kind default [] = default
last_value is_kind default (attribute ∷ attributes) =
    last_value is_kind (if is_kind attribute.kind then attribute.value else default) attributes

abbrev is_rate_control : AttribType → Bool
is_rate_control AttribType.rate_control = true
is_rate_control kind = false

abbrev is_packed_headers : AttribType → Bool
is_packed_headers enc_packed_headers = true
is_packed_headers kind = false

-- The description that a caller asks for: 10-bit surfaces for HEVC Main 10 and 8-bit ones for the
-- rest, and for an encoder the last rate control, VBR by default, and the last packed headers, none
-- by default.
abbrev pub asked : Profile → Entrypoint → List Attrib → Described
asked profile entrypoint attributes = record {
  profile = profile;
  entrypoint = entrypoint;
  attributes =
      record {
        kind = rt_format;
        value = if eq_profile profile hevc_main10 then rt_yuv420_10 else rt_yuv420;
      }
      ∷ (if eq_entrypoint entrypoint enc_slice
          then record {
            kind = AttribType.rate_control;
            value = last_value is_rate_control rc_vbr attributes;
          }
            ∷ record {
              kind = enc_packed_headers;
              value = last_value is_packed_headers 0 attributes;
            }
            ∷ []
          else []);
}

Chooses : Chosen → (rate packed : ℕ) → Type 0
Chooses chosen rate packed = (chosen.rate_control ≡ rate) × (chosen.packed_headers ≡ packed)

same_choice :
    {chosen next : Chosen}
    → va_ok chosen ≡ va_ok next
    → Chooses next chosen.rate_control chosen.packed_headers
unfolding Chooses
same_choice same = (
  ap (λ (c : Chosen). c.rate_control) (sym (va_ok-injective same)),
  ap (λ (c : Chosen). c.packed_headers) (sym (va_ok-injective same)),
)

check_attribute-Chooses :
    (profile : Profile) (entrypoint : Entrypoint) (chosen : Chosen) (kind : AttribType) (value : ℕ)
    {next : Chosen}
    → eq_entrypoint entrypoint enc_slice ≡ true
    → check_attribute profile entrypoint chosen kind value ≡ va_ok next
    → Chooses next
        (if is_rate_control kind then value else chosen.rate_control)
        (if is_packed_headers kind then value else chosen.packed_headers)
unfolding Chooses
check_attribute-Chooses profile entrypoint chosen rt_format value encodes h =
    let (fine, same) = va_guard-eq-ok (bit_and value (rt_format_of profile) == 0) _ _ h in
    same_choice same
check_attribute-Chooses profile entrypoint chosen dec_slice_mode value encodes h =
    let (fine, same) =
      va_guard-eq-ok (eq_entrypoint entrypoint vld && not (value == slice_mode_normal)) _ _ h in
    same_choice same
check_attribute-Chooses profile entrypoint chosen AttribType.rate_control value encodes h =
    let h' = rw encodes at h in let (fine, same) = va_guard-eq-ok _ _ _ h' in same_choice same
check_attribute-Chooses profile entrypoint chosen enc_packed_headers value encodes h =
    let h' = rw encodes at h in let (fine, same) = va_guard-eq-ok _ _ _ h' in same_choice same
check_attribute-Chooses profile entrypoint chosen enc_max_ref_frames value encodes h = same_choice h
check_attribute-Chooses profile entrypoint chosen enc_max_slices value encodes h = same_choice h
check_attribute-Chooses profile entrypoint chosen max_picture_width value encodes h = same_choice h
check_attribute-Chooses profile entrypoint chosen max_picture_height value encodes h = same_choice h
check_attribute-Chooses profile entrypoint chosen other_attrib value encodes h = same_choice h

check_attributes-Chooses :
    (profile : Profile) (entrypoint : Entrypoint) (chosen : Chosen) (attributes : List Attrib)
    {last : Chosen}
    → eq_entrypoint entrypoint enc_slice ≡ true
    → check_attributes profile entrypoint chosen attributes ≡ va_ok last
    → Chooses last
        (last_value is_rate_control chosen.rate_control attributes)
        (last_value is_packed_headers chosen.packed_headers attributes)
unfolding Chooses last_value
check_attributes-Chooses profile entrypoint chosen [] encodes h = same_choice h
check_attributes-Chooses profile entrypoint chosen (a ∷ attributes) encodes h =
    let (next, first, rest) =
      >>?-eq-ok (check_attribute profile entrypoint chosen a.kind a.value) _ h in
    let (rate, packed) =
      check_attribute-Chooses profile entrypoint chosen a.kind a.value encodes first in
    let (last_rate, last_packed) =
      check_attributes-Chooses profile entrypoint next attributes encodes rest in
    (rw (← rate) last_rate, rw (← packed) last_packed)

pub described_as_asked :
    (profile : Profile) (entrypoint : Entrypoint) (attributes : List Attrib) (chosen : Chosen)
    (i : ℕ)
    → check_attributes profile entrypoint (default_choice entrypoint) attributes ≡ va_ok chosen
    → describe (new_config profile entrypoint chosen i) ≡ asked profile entrypoint attributes
unfolding Chooses
described_as_asked profile entrypoint attributes chosen i checked =
    elim (Bool-cases (eq_entrypoint entrypoint enc_slice)) [
      | inl encodes ↦
          let (rate, packed) =
            check_attributes-Chooses profile entrypoint (default_choice entrypoint) attributes
              encodes checked in
          let rate' : chosen.rate_control ≡ last_value is_rate_control rc_vbr attributes =
            rw encodes at rate in
          rw (encodes, rate', packed) refl
      | inr decodes ↦ rw decodes refl
    ]
