-- ===== src/Encode/Protocol.antt =====
-- The order of parameter buffers that src/encode.c accepts for an H.264 picture.
use venus_vaapi_driver.Common.{
  ℕ, ◌≡◌, refl, ap, ◌∙◌, Bool, true, false, not, ◌||◌, Option, none, some, List, [], ◌∷◌, arith,
  ◌==◌, bit_and, if◌then◌else◌,
}
use venus_vaapi_driver.Common.Results.{ok, einval, enotsup, >>=-eq-ok, ok-injective, guard-eq-ok}
use venus_vaapi_driver.VaTypes.{
  BufferType, picture_parameter, iq_matrix, q_matrix, slice_parameter, slice_payload, probability,
  enc_sequence_parameter, enc_picture_parameter, enc_slice_parameter, enc_coded,
  enc_packed_header_parameter, enc_packed_header_payload, enc_misc_parameter, image_payload,
  other_buffer,
}
use venus_vaapi_driver.Backend.{Buffer, Backend, find_buffer}
use venus_vaapi_driver.Backend.Profiles.{h264_packed_headers}
use venus_vaapi_driver.Encode.Parameters.{
  Layout, Collected, PackedHeader, nothing_yet, is_some, h264_step, take_payload, take_pending,
  collect, collect_parameters, parse_slice_parameters, parse_misc_parameter, refused_single,
  buffer_bytes,
}

-- The types of the buffers that a picture names.
abbrev kind_of : Option (ℕ × Buffer) → BufferType
kind_of none = other_buffer
kind_of (some (index, buffer)) = buffer.kind

abbrev pub kinds : Backend → List ℕ → List BufferType
kinds backend [] = []
kinds backend (id ∷ pending) = kind_of (find_buffer backend id) ∷ kinds backend pending

-- What a picture has been given.
pub record Given : Type 0 where
  pub sequence : Bool
  pub picture : Bool
  pub slice : Bool
  pub packed : Bool

-- The protocol, as an automaton over the types: one sequence and one picture at most, and each
-- packed header parameter followed by its data before the next one.
abbrev pub accepts : BufferType → Given → Option Given
accepts enc_sequence_parameter given =
    if given.sequence then none else some (record given { sequence = true })
accepts enc_picture_parameter given =
    if given.picture then none else some (record given { picture = true })
accepts enc_slice_parameter given = some (record given { slice = true })
accepts enc_packed_header_parameter given =
    if given.packed then none else some (record given { packed = true })
accepts enc_packed_header_payload given =
    if given.packed then some (record given { packed = false }) else none
accepts enc_misc_parameter given = some given
accepts iq_matrix given = some given
accepts _ given = none

abbrev pub then_accepts : Option Given → (Given → Option Given) → Option Given
then_accepts none rest = none
then_accepts (some given) rest = rest given

abbrev pub run : List BufferType → Given → Option Given
run [] given = some given
run (kind ∷ rest) given = then_accepts (accepts kind given) (run rest)

abbrev pub given_by : Collected → Given
given_by state = record {
  sequence = is_some state.sequence;
  picture = is_some state.picture;
  slice = state.has_slice;
  packed = is_some state.packed;
}

same_given :
    {state next : Collected} → ok state ≡ ok next → some (given_by state) ≡ some (given_by next)
same_given e = ap (λ (s : Collected). some (given_by s)) (ok-injective e)

not_present :
    (layout : Layout) (present : Bool) (buffer : Buffer) (size : ℕ)
    → refused_single layout present buffer size ≡ false
    → present ≡ false
not_present layout present buffer size h = ground (arith, h)

payload_accepted :
    (layout : Layout) (packed : Option PackedHeader) (buffer : Buffer) (state next : Collected)
    → state.packed ≡ packed
    → take_payload layout packed buffer state ≡ ok next
    → accepts enc_packed_header_payload (given_by state) ≡ some (given_by next)
payload_accepted layout none buffer state next e h = cc
payload_accepted layout (some header) buffer state next e h =
    rw e (same_given (guard-eq-ok _ einval _ h).1)

step_accepted :
    (layout : Layout) (kind : BufferType) (buffer : Buffer) (state next : Collected)
    → h264_step layout kind buffer state ≡ ok next
    → accepts kind (given_by state) ≡ some (given_by next)
step_accepted layout picture_parameter buffer state next h = cc
step_accepted layout iq_matrix buffer state next h = same_given h
step_accepted layout q_matrix buffer state next h = cc
step_accepted layout slice_parameter buffer state next h = cc
step_accepted layout slice_payload buffer state next h = cc
step_accepted layout probability buffer state next h = cc
step_accepted layout enc_sequence_parameter buffer state next h =
    let (single, g) =
      guard-eq-ok (refused_single layout (is_some state.sequence) buffer layout.sequence_size)
        einval _ h in
    rw (not_present layout (is_some state.sequence) buffer layout.sequence_size single)
      (same_given g)
step_accepted layout enc_picture_parameter buffer state next h =
    let (single, g) =
      guard-eq-ok (refused_single layout (is_some state.picture) buffer layout.picture_size) einval
        _ h in
    rw (not_present layout (is_some state.picture) buffer layout.picture_size single) (same_given g)
step_accepted layout enc_slice_parameter buffer state next h =
    let (u, parsed, g) = >>=-eq-ok (parse_slice_parameters layout buffer) _ h in same_given g
step_accepted layout enc_coded buffer state next h = cc
step_accepted layout enc_packed_header_parameter buffer state next h =
    let (single, g) =
      guard-eq-ok (refused_single layout (is_some state.packed) buffer layout.packed_size) einval _
        h in
    let (known, g') =
      guard-eq-ok (bit_and (layout.read_packed buffer.bytes).header_type h264_packed_headers == 0)
        enotsup _ g in
    rw (not_present layout (is_some state.packed) buffer layout.packed_size single) (same_given g')
step_accepted layout enc_packed_header_payload buffer state next h =
    payload_accepted layout state.packed buffer state next refl h
step_accepted layout enc_misc_parameter buffer state next h =
    let (rates, parsed, g) = >>=-eq-ok (parse_misc_parameter layout buffer state.rates) _ h in
    same_given g
step_accepted layout image_payload buffer state next h = cc
step_accepted layout other_buffer buffer state next h = cc

collect_accepted :
    (layout : Layout) (backend : Backend) (pending : List ℕ) (state final : Collected)
    → collect (h264_step layout) backend pending state ≡ ok final
    → run (kinds backend pending) (given_by state) ≡ some (given_by final)
collect_accepted layout backend [] state final h = same_given h
collect_accepted layout backend (id ∷ pending) state final h =
    let (next, taken, rest) =
      >>=-eq-ok (take_pending (h264_step layout) (find_buffer backend id) state) _ h in
    accepted (find_buffer backend id) next taken
      (collect_accepted layout backend pending next final rest)
  where
    accepted :
        (found : Option (ℕ × Buffer)) (next : Collected)
        → take_pending (h264_step layout) found state ≡ ok next
        → run (kinds backend pending) (given_by next) ≡ some (given_by final)
        → then_accepts (accepts (kind_of found) (given_by state)) (run (kinds backend pending))
          ≡ some (given_by final)
    accepted none next g later = cc
    accepted (some (index, buffer)) next g later =
        let (nonempty, step) = guard-eq-ok (buffer_bytes buffer == 0) einval _ g in
        rw (step_accepted layout buffer.kind buffer state next step) later

-- The parameters of an H.264 picture are accepted only when the types of its buffers follow the
-- protocol from the start: no type is foreign, there is exactly one picture, at most one sequence
-- and at least one slice, and each packed header parameter has its data before the next one and
-- before the end.
pub collect_parameters-accepted :
    (layout : Layout) (backend : Backend) (pending : List ℕ) (final : Collected)
    → collect_parameters layout backend pending ≡ ok final
    → run
        (kinds backend pending)
        (record { sequence = false; picture = false; slice = false; packed = false })
      ≡ some (record {
        sequence = is_some final.sequence;
        picture = true;
        slice = true;
        packed = false;
      })
unfolding collect_parameters
collect_parameters-accepted layout backend pending final h =
    let (last, collected, complete) =
      >>=-eq-ok (collect (h264_step layout) backend pending nothing_yet) _ h in
    let (whole, same) =
      guard-eq-ok (not (is_some last.picture) || not last.has_slice || is_some last.packed) einval _
        complete in
    collect_accepted layout backend pending nothing_yet last collected
    ∙ finished last (ground (arith, whole)) (ground (arith, whole)) (ground (arith, whole))
        (ok-injective same)
  where
    finished :
        (last : Collected)
        → is_some last.picture ≡ true
        → last.has_slice ≡ true
        → is_some last.packed ≡ false
        → last ≡ final
        → some (given_by last)
          ≡ some (record {
            sequence = is_some final.sequence;
            picture = true;
            slice = true;
            packed = false;
          })
    finished last p s q e =
        rw (p, s, q)
          (ap
            (λ (c : Collected). some (record {
              sequence = is_some c.sequence;
              picture = true;
              slice = true;
              packed = false;
            }))
            e)
