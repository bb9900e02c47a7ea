-- ===== src/Objects/Ownership.antt =====
-- The calls of src/objects.c on buffers keep the tables sound.
use mathlib.Core.Option.{some-injective}
use venus_vaapi_driver.Common.{
  ℕ, zero, suc, ◌+◌, ◌-◌, ◌^◌, ◌≡◌, ◌≢◌, refl, sym, subst, ◌∙◌, true, false, not, ◌||◌, Option,
  none, some, List, [], ◌∷◌, get_elem?, All-get, arith, ◌==◌, if-holds,
}
use venus_vaapi_driver.Common.Results.{Result, ok, err}
use venus_vaapi_driver.VaTypes.{VaResult, va_ok, va_ok-injective, va_guard-eq-ok}
use venus_vaapi_driver.Backend.{
  Backend, Buffer, Image, buffer_slot, max_buffers, find_buffer, free_buffer, empty_buffer,
}
use venus_vaapi_driver.Backend.Table.{find-some}
use venus_vaapi_driver.Objects.Buffers.{
  put_buffer, with_status, map_buffer, unmap_found, unmap_buffer, freed, destroy_buffer,
  buffer_used_by_image,
}
use venus_vaapi_driver.Objects.Soundness.{
  IsWhole, IsSound, put_buffer-IsSound, clear_buffer-IsSound,
}
use venus_vaapi_driver.Objects.Resizing.{change_found, IsWhole-buffer, changed-IsSound}

mapped-IsWhole :
    (buffer : Buffer) (count : ℕ) → IsWhole buffer → IsWhole (record buffer { map_count = count })
mapped-IsWhole buffer count whole = record {
  has_size = whole.has_size;
  has_elements = whole.has_elements;
  in_capacity = whole.in_capacity;
  no_overflow = whole.no_overflow;
  owned = whole.owned;
}

with_status-eq-ok :
    (status : Result (Unit {0})) (buffer : Buffer) {new : Buffer}
    → with_status status buffer ≡ va_ok new
    → buffer ≡ new
with_status-eq-ok (err code) buffer h = cc
with_status-eq-ok (ok done) buffer h = va_ok-injective h

-- A buffer that is mapped keeps the tables sound.
pub map_buffer-IsSound :
    (backend : Backend) (access : Result (Unit {0})) (id : ℕ) {after : Backend}
    → IsSound backend
    → map_buffer backend access id ≡ va_ok after
    → IsSound after
unfolding map_buffer
map_buffer-IsSound backend access id sound h =
    let step = change_found backend _ id (find_buffer backend id) refl h in
    let (room, mapped) = va_guard-eq-ok (step.buffer.map_count == 2 ^ 32 - 1) _ _ step.changed in
    let same = with_status-eq-ok _ _ mapped in
    changed-IsSound sound step (subst (λ (b : Buffer). b.used ≡ true) same step.used)
      (subst (λ (b : Buffer). b.id ≡ step.buffer.id) same refl)
      (subst IsWhole same
        (mapped-IsWhole step.buffer (step.buffer.map_count + 1) (IsWhole-buffer sound step)))

unmap_found-IsSound :
    (backend : Backend) (access : Result (Unit {0})) (id : ℕ) (found : Option (ℕ × Buffer))
    → IsSound backend
    → find_buffer backend id ≡ found
    → IsSound (unmap_found backend access found).0
unfolding find_buffer
unmap_found-IsSound backend access id none sound e = sound
unmap_found-IsSound backend access id (some (index, buffer)) sound e =
    let (there, used, named, within, own) =
      find-some buffer_slot 4 max_buffers backend.buffers id e in
    if-holds (λ (answer : Backend × VaResult (Unit {0})). IsSound answer.0) (buffer.map_count == 0)
      (λ unmapped. sound)
      (λ mapped.
        put_buffer-IsSound backend index sound there
          (record buffer { map_count = buffer.map_count - 1 }) used (named ∙ own)
          (mapped-IsWhole buffer (buffer.map_count - 1) (
            All-get (λ (b : Buffer). b.used ≡ true → IsWhole b) backend.buffers index sound.whole
              there used)))

-- A buffer that is unmapped keeps the tables sound, whether or not the access ends well.
pub unmap_buffer-IsSound :
    (backend : Backend) (access : Result (Unit {0})) (id : ℕ)
    → IsSound backend
    → IsSound (unmap_buffer backend access id).0
unfolding unmap_buffer
unmap_buffer-IsSound backend access id sound =
    unmap_found-IsSound backend access id (find_buffer backend id) sound refl

unused_sound :
    (id : ℕ) (images : List Image) (i : ℕ) {image : Image}
    → buffer_used_by_image id images ≡ false
    → get_elem? images i ≡ some image
    → image.used ≡ true
    → image.buffer_id ≢ id
unfolding buffer_used_by_image
unused_sound id [] i unused at live = cc
unused_sound id (x ∷ images) zero {image} unused at live =
    let e = some-injective x image at in λ same. ground (arith, unused, e, live, same)
unused_sound id (x ∷ images) (suc i) {image} unused at live =
    unused_sound id images i (ground (arith, unused)) at live

-- A buffer that is destroyed keeps the tables sound: no image loses its buffer.
pub destroy_buffer-IsSound :
    (backend : Backend) (id : ℕ) {after : Backend}
    → IsSound backend
    → destroy_buffer backend id ≡ va_ok after
    → IsSound after
unfolding destroy_buffer free_buffer
destroy_buffer-IsSound backend id sound h =
    let step = change_found backend (freed backend) id (find_buffer backend id) refl h in
    let (idle, freed) =
      va_guard-eq-ok
        (not (step.buffer.map_count == 0) || buffer_used_by_image step.buffer.id backend.images) _ _
        step.changed in
    let plain : free_buffer step.buffer ≡ step.new = va_ok-injective freed in
    let cleared : empty_buffer ≡ step.new = rw step.used at plain in
    subst IsSound step.result (
      subst (λ (b : Buffer). IsSound (put_buffer backend step.index b)) cleared
        (clear_buffer-IsSound backend step.index sound step.there (λ i image at live same.
          unused_sound step.buffer.id backend.images i (ground (arith, idle)) at live
            (same ∙ sym step.own))))
