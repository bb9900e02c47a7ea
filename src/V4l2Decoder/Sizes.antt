-- ===== src/V4l2Decoder/Sizes.antt =====
-- What the calls of src/v4l2_decoder.c leave of the sizes of the buffers that it has mapped.
use venus_vaapi_driver.Common.{
  length-overwrite, ℕ, zero, suc, ◌≡◌, refl, sym, ap, ◌∙◌, Bool, false, none, some, List, [], ◌∷◌,
  length, get_elem?,
}
use venus_vaapi_driver.V4l2Decoder.Device.{MappedBuffer, update, mark, fill_buffer, mapped_length}

abbrev pub sizes : List MappedBuffer → List ℕ
sizes [] = []
sizes (buffer ∷ buffers) = length buffer.bytes ∷ sizes buffers

pub length-sizes : (buffers : List MappedBuffer) → length (sizes buffers) ≡ length buffers
length-sizes [] = refl
length-sizes (buffer ∷ buffers) = ap suc (length-sizes buffers)

pub sizes-update :
    (change : MappedBuffer → MappedBuffer) (buffers : List MappedBuffer) (index : ℕ)
    → ((buffer : MappedBuffer) → length (change buffer).bytes ≡ length buffer.bytes)
    → sizes (update change buffers index) ≡ sizes buffers
sizes-update change [] index same = refl
sizes-update change (buffer ∷ buffers) zero same = ap (λ n. n ∷ sizes buffers) (same buffer)
sizes-update change (buffer ∷ buffers) (suc index) same =
    ap (λ rest. length buffer.bytes ∷ rest) (sizes-update change buffers index same)

pub sizes-mark :
    (queued : Bool) (buffers : List MappedBuffer) (index : ℕ)
    → sizes (update (mark queued) buffers index) ≡ sizes buffers
sizes-mark queued buffers index = sizes-update (mark queued) buffers index (λ buffer. refl)

pub sizes-fill_buffer :
    (source : List ℕ) (buffers : List MappedBuffer) (index : ℕ)
    → sizes (update (fill_buffer source) buffers index) ≡ sizes buffers
sizes-fill_buffer source buffers index =
    sizes-update (fill_buffer source) buffers index (λ buffer. length-overwrite buffer.bytes source)

pub sizes-hand_back :
    (source : List ℕ) (buffers : List MappedBuffer) (index : ℕ)
    → sizes (update (λ buffer. mark false (fill_buffer source buffer)) buffers index)
      ≡ sizes buffers
sizes-hand_back source buffers index =
    sizes-update (λ buffer. mark false (fill_buffer source buffer)) buffers index
      (λ buffer. length-overwrite buffer.bytes source)

abbrev size_at : List ℕ → ℕ → ℕ
size_at sizes index = elim (get_elem? sizes index) [ none ↦ 0 | some size ↦ size ]

mapped_length-size_at :
    (buffers : List MappedBuffer) (index : ℕ)
    → mapped_length buffers index ≡ size_at (sizes buffers) index
mapped_length-size_at [] index = refl
mapped_length-size_at (buffer ∷ buffers) zero = refl
mapped_length-size_at (buffer ∷ buffers) (suc index) = mapped_length-size_at buffers index

-- Lists of buffers of the same sizes have the same mapped lengths.
pub mapped_length-sizes :
    (first second : List MappedBuffer) (index : ℕ)
    → sizes first ≡ sizes second
    → mapped_length first index ≡ mapped_length second index
mapped_length-sizes first second index same =
    mapped_length-size_at first index
    ∙ ap (λ (sizes : List ℕ). size_at sizes index) same
    ∙ sym (mapped_length-size_at second index)

pub length_same :
    (first second : List MappedBuffer) → sizes first ≡ sizes second → length first ≡ length second
length_same first second same =
    sym (length-sizes first) ∙ ap (λ (sizes : List ℕ). length sizes) same ∙ length-sizes second
