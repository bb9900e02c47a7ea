-- ===== src/Objects/Resizing.antt =====
-- The number of elements of a buffer of src/objects.c changes, and the tables stay sound.
use native.Mathlib.Nat.{le-div_iff_mul-le, mul-le-mul}
use venus_vaapi_driver.Common.{
  ℕ, ◌+◌, ◌-◌, ◌*◌, ◌/◌, ◌≤◌, ◌≡◌, refl, subst, ◌∙◌, Bool, true, false, not, ◌||◌, Option, none,
  some, length, length-append, length-replicate, get_elem?, replicate, All-get, arith, ltb, ◌==◌,
  Bool-cases, inl, inr,
}
use venus_vaapi_driver.VaTypes.{VaResult, va_ok, va_err, va_ok-injective, va_guard-eq-ok}
use venus_vaapi_driver.Backend.{Backend, Buffer, buffer_slot, max_buffers, find_buffer}
use venus_vaapi_driver.Backend.Table.{base_of, find-some}
use venus_vaapi_driver.Objects.{size_limit}
use venus_vaapi_driver.Objects.Buffers.{
  put_buffer, grown, resized, store_buffer, change_buffer, set_num_elements, holds_coded,
}
use venus_vaapi_driver.Objects.Soundness.{IsWhole, IsSound, put_buffer-IsSound}

-- What a lookup finds, and the answer of the change to it.
pub record IsChanged (backend : Backend) (change : ℕ → Buffer → VaResult Buffer) (after : Backend)
    : Type 0 where
  pub index : ℕ
  pub buffer : Buffer
  pub new : Buffer
  pub there : get_elem? backend.buffers index ≡ some buffer
  pub used : buffer.used ≡ true
  pub own : buffer.id ≡ base_of 4 + (index + 1)
  pub changed : change index buffer ≡ va_ok new
  pub result : put_buffer backend index new ≡ after

store_buffer-eq-ok :
    (backend : Backend) (index : ℕ) (answer : VaResult Buffer) {after : Backend}
    → store_buffer backend index answer ≡ va_ok after
    → (new : Buffer) × (answer ≡ va_ok new) × (put_buffer backend index new ≡ after)
store_buffer-eq-ok backend index (va_err status) h = cc
store_buffer-eq-ok backend index (va_ok new) h = (new, refl, va_ok-injective h)

pub change_found :
    (backend : Backend) (change : ℕ → Buffer → VaResult Buffer) (id : ℕ)
    (found : Option (ℕ × Buffer)) {after : Backend}
    → find_buffer backend id ≡ found
    → change_buffer backend change found ≡ va_ok after
    → IsChanged backend change after
unfolding find_buffer
change_found backend change id none e h = cc
change_found backend change id (some (index, buffer)) e h =
    let (there, used, named, within, own) =
      find-some buffer_slot 4 max_buffers backend.buffers id e in
    let (new, changed, result) = store_buffer-eq-ok backend index (change index buffer) h in
    record {
      index = index;
      buffer = buffer;
      new = new;
      there = there;
      used = used;
      own = named ∙ own;
      changed = changed;
      result = result;
    }

pub IsWhole-buffer :
    {backend : Backend} {change : ℕ → Buffer → VaResult Buffer} {after : Backend}
    → IsSound backend
    → (step : IsChanged backend change after) → IsWhole step.buffer
IsWhole-buffer {backend} sound step =
    All-get (λ (b : Buffer). b.used ≡ true → IsWhole b) backend.buffers step.index sound.whole
      step.there step.used

-- A change that keeps a buffer's ID and keeps it whole keeps the tables sound.
pub changed-IsSound :
    {backend : Backend} {change : ℕ → Buffer → VaResult Buffer} {after : Backend}
    → IsSound backend
    → (step : IsChanged backend change after) → step.new.used ≡ true
    → step.new.id ≡ step.buffer.id
    → IsWhole step.new
    → IsSound after
changed-IsSound {backend} sound step used same whole =
    subst IsSound step.result
      (put_buffer-IsSound backend step.index sound step.there step.new used (same ∙ step.own) whole)

length-grown :
    (buffer : Buffer) (num_elements : ℕ)
    → IsWhole buffer
    → buffer.owns_data ≡ true
    → ltb buffer.capacity_elements num_elements ≡ true
    → length (grown buffer num_elements).bytes ≡ buffer.element_size * num_elements
length-grown buffer num_elements whole own large =
    let more =
      num_elements * buffer.element_size - buffer.capacity_elements * buffer.element_size in
    omega (
      arith,
      length-append buffer.bytes (replicate more 0),
      length-replicate {A = ℕ} more 0,
      whole.owned own,
      mul-le-mul {n₁ = buffer.capacity_elements} {m₁ = buffer.element_size} {n₂ = num_elements}
          {m₂ = buffer.element_size} (ground (arith, large)) (omega arith),
    )

resized-IsWhole :
    (has_memory : Bool) (buffer new : Buffer) (num_elements : ℕ)
    → buffer.used ≡ true
    → IsWhole buffer
    → (num_elements == 0) ≡ false
    → resized has_memory buffer num_elements ≡ va_ok new
    → (new.used ≡ true) × (new.id ≡ buffer.id) × IsWhole new
resized-IsWhole has_memory buffer new num_elements used whole some_elements h =
    let (own, h₁) = va_guard-eq-ok (not buffer.owns_data || holds_coded buffer.kind) _ _ h in
    let (fits, h₂) = va_guard-eq-ok (ltb (size_limit / buffer.element_size) num_elements) _ _ h₁ in
    let bounded : num_elements * buffer.element_size ≤ size_limit =
      (le-div_iff_mul-le whole.has_size).0 (ground (arith, fits)) in
    elim (Bool-cases (ltb buffer.capacity_elements num_elements)) [
      | inr small ↦
          let same = va_ok-injective (rw small at h₂) in
          subst (λ (b : Buffer). (b.used ≡ true) × (b.id ≡ buffer.id) × IsWhole b) same
            (
              used,
              refl,
              record {
                has_size = whole.has_size;
                has_elements = ground (arith, some_elements);
                in_capacity = ground (arith, small);
                no_overflow = omega (arith, bounded);
                owned = whole.owned;
              },
            )
      | inl large ↦
          let (memory, h₃) = va_guard-eq-ok (not has_memory) _ _ (rw large at h₂) in
          subst (λ (b : Buffer). (b.used ≡ true) × (b.id ≡ buffer.id) × IsWhole b)
            (va_ok-injective h₃)
            (
              used,
              refl,
              record {
                has_size = whole.has_size;
                has_elements = ground (arith, some_elements);
                in_capacity = omega arith;
                no_overflow = omega (arith, bounded);
                owned = λ own. length-grown buffer num_elements whole own large;
              },
            )
    ]

-- A buffer whose number of elements is set keeps the tables sound.
pub set_num_elements-IsSound :
    (has_memory : Bool) (backend : Backend) (id num_elements : ℕ) {after : Backend}
    → IsSound backend
    → set_num_elements has_memory backend id num_elements ≡ va_ok after
    → IsSound after
unfolding set_num_elements
set_num_elements-IsSound has_memory backend id num_elements sound h =
    let (some_elements, h') = va_guard-eq-ok (num_elements == 0) _ _ h in
    let step = change_found backend _ id (find_buffer backend id) refl h' in
    let (used, same, whole) =
      resized-IsWhole has_memory step.buffer step.new num_elements step.used
        (IsWhole-buffer sound step) some_elements step.changed in
    changed-IsSound sound step used same whole
