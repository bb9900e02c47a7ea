-- ===== src/Backend/Table.antt =====
-- The object tables of src/backend.c and src/backend_internal.h: fixed arrays of slots, each with a
-- `used` flag and an ID that encodes the kind of object and the slot.
use mathlib.Core.Option.{some-injective}
use venus_vaapi_driver.Common.{
  ==_iff, ==-false, sym, ◌∙◌, ℕ, zero, suc, ◌+◌, ◌-◌, ◌*◌, ◌/◌, ◌%◌, ◌≤◌, ◌<◌, ◌≡◌, refl, ◌≢◌, Bool,
  true, false, not, ◌&&◌, ◌||◌, Option, none, some, List, [], ◌∷◌, arith, ltb, ◌==◌, length,
  get_elem?, set, get_elem?-set_self, get_elem?-set_ne, get_elem?-lt, replicate, if◌then◌else◌,
  Bool-cases, Option-cases, inl, inr,
}

-- What the lookups read of a slot.
pub record Slot (A : Type 0) : Type 0 where
  pub used : A → Bool
  pub id : A → ℕ

-- `VENUS_CONFIG_BASE` and the like are the kind in the top byte.
abbrev pub base_of : ℕ → ℕ
base_of kind = kind * 0x1000000

module _ {A : Type 0} (slot : Slot A) where
  open slot use {used, id as id_of}

  -- `slots[index].used && slots[index].id == id ? &slots[index] : NULL`
  abbrev check_slot : ℕ → ℕ → Option A → Option (ℕ × A)
  check_slot id index none = none
  check_slot id index (some x) = if used x && id_of x == id then some (index, x) else none

  -- The shape that venus_backend_find_config, _context, _surface, _buffer and _image share. The
  -- result has the index of the slot, through which a caller writes.
  unfoldable pub find : ℕ → ℕ → List A → ℕ → Option (ℕ × A)
  find kind maximum slots id =
      if not (id / 0x1000000 * 0x1000000 == base_of kind)
        || id % 0x1000000 == 0
        || ltb maximum (id % 0x1000000)
      then none
      else check_slot id (id % 0x1000000 - 1) (get_elem? slots (id % 0x1000000 - 1))

  -- The loops that look for a slot with no object in it.
  unfoldable pub first_free : ℕ → List A → Option ℕ
  first_free index [] = none
  first_free index (x ∷ slots) =
      let rest = first_free (index + 1) slots in if used x then rest else some index

  -- Every object has the ID of its slot. `index` slots stand before the list.
  abbrev pub IsNumbered : ℕ → ℕ → List A → Type 0
  IsNumbered kind index [] = Unit {0}
  IsNumbered kind index (x ∷ slots) =
      (used x ≡ true → id_of x ≡ base_of kind + (index + 1)) × IsNumbered kind (index + 1) slots

  IsNumbered-get :
      (kind index : ℕ) (slots : List A) (i : ℕ) {x : A}
      → IsNumbered kind index slots
      → get_elem? slots i ≡ some x
      → used x ≡ true
      → id_of x ≡ base_of kind + (index + i + 1)
  IsNumbered-get kind index [] i h e u = cc
  IsNumbered-get kind index (y ∷ slots) zero h e u = ground (arith, some-injective e)
  IsNumbered-get kind index (y ∷ slots) (suc i) h e u =
      omega (arith, IsNumbered-get kind (index + 1) slots i h.1 e u)

  pub IsNumbered-set :
      (kind index : ℕ) (slots : List A) (i : ℕ) (x : A)
      → IsNumbered kind index slots
      → (used x ≡ true → id_of x ≡ base_of kind + (index + i + 1))
      → IsNumbered kind index (set slots i x)
  IsNumbered-set kind index [] i x h e = tt
  IsNumbered-set kind index (y ∷ slots) zero x h e = ((λ u. omega (arith, e u)), h.1)
  IsNumbered-set kind index (y ∷ slots) (suc i) x h e =
      (h.0, IsNumbered-set kind (index + 1) slots i x h.1 (λ u. omega (arith, e u)))

  pub IsNumbered-replicate :
      (kind index n : ℕ) (x : A) → used x ≡ false → IsNumbered kind index (replicate n x)
  IsNumbered-replicate kind index zero x h = tt
  IsNumbered-replicate kind index (suc n) x h =
      ((λ v. ground (arith, h)), IsNumbered-replicate kind (index + 1) n x h)

  -- What a lookup returns is an object of the table under that ID.
  pub find-some :
      (kind maximum : ℕ) (slots : List A) (id : ℕ) {i : ℕ} {x : A}
      → find kind maximum slots id ≡ some (i, x)
      → (get_elem? slots i ≡ some x)
        × (used x ≡ true)
        × (id_of x ≡ id)
        × (i < maximum)
        × (id ≡ base_of kind + (i + 1))
  unfolding find
  find-some kind maximum slots id {i} {x} h =
      elim (Option-cases (get_elem? slots (id % 0x1000000 - 1))) [
        | inl missing ↦ absurd (ground (arith, missing))
        | inr (y, there) ↦ inverted (id % 0x1000000 - 1) y there refl (rw there at h)
      ]
    where
      inverted :
          (index : ℕ) (y : A)
          → get_elem? slots index ≡ some y
          → index ≡ id % 0x1000000 - 1
          → (if not (id / 0x1000000 * 0x1000000 == base_of kind)
                || id % 0x1000000 == 0
                || ltb maximum (id % 0x1000000)
              then none
              else check_slot id index (some y))
            ≡ some (i, x)
          → (get_elem? slots i ≡ some x)
            × (used x ≡ true)
            × (id_of x ≡ id)
            × (i < maximum)
            × (id ≡ base_of kind + (i + 1))
      inverted index y there e g = ground arith

  quotient : (kind i : ℕ) → i + 1 < 0x1000000 → (base_of kind + (i + 1)) / 0x1000000 ≡ kind
  quotient kind i h = omega arith

  remainder : (kind i : ℕ) → i + 1 < 0x1000000 → (base_of kind + (i + 1)) % 0x1000000 ≡ i + 1
  remainder kind i h = omega arith

  add-sub : (i : ℕ) → i + 1 - 1 ≡ i
  add-sub i = omega arith

  -- A lookup by the ID of an object of the table returns that object.
  pub find-get :
      (kind maximum : ℕ) (slots : List A) (i : ℕ) {x : A}
      → IsNumbered kind 0 slots
      → get_elem? slots i ≡ some x
      → used x ≡ true
      → i < maximum
      → maximum < 0x1000000
      → find kind maximum slots (base_of kind + (i + 1)) ≡ some (i, x)
  unfolding find
  find-get kind maximum slots i {x} h e u lt small =
      rw (quotient kind i (omega arith), remainder kind i (omega arith), add-sub i, e)
        (ground (arith, IsNumbered-get kind 0 slots i h e u))

  -- A lookup in an empty slot finds nothing.
  pub find_free :
      (kind maximum : ℕ) (slots : List A) (i : ℕ) {x : A}
      → get_elem? slots i ≡ some x
      → used x ≡ false
      → i < maximum
      → maximum < 0x1000000
      → find kind maximum slots (base_of kind + (i + 1)) ≡ none
  unfolding find
  find_free kind maximum slots i {x} e u lt small =
      rw (quotient kind i (omega arith), remainder kind i (omega arith), add-sub i, e)
        (ground arith)

  -- Objects of another kind are not found under an ID of this kind.
  pub find_other :
      (kind other maximum : ℕ) (slots : List A) (i : ℕ)
      → kind ≢ other
      → i + 1 < 0x1000000
      → find kind maximum slots (base_of other + (i + 1)) ≡ none
  unfolding find
  find_other kind other maximum slots i ne small =
      rw (quotient other i small, remainder other i small) (ground arith)

  -- A write to a slot changes no lookup but that by the slot's own ID.
  pub find-set_ne :
      (kind maximum : ℕ) (slots : List A) (i : ℕ) (x : A) (id : ℕ)
      → id ≢ base_of kind + (i + 1)
      → find kind maximum (set slots i x) id ≡ find kind maximum slots id
  unfolding find
  find-set_ne kind maximum slots i x id ne =
      elim (Bool-cases
        ((id / 0x1000000 * 0x1000000 == base_of kind) && not (id % 0x1000000 == 0))) [
          | inl own ↦
              rw (get_elem?-set_ne slots i (id % 0x1000000 - 1) x (λ e. ne (ground arith))) refl
          | inr other ↦ ground arith
        ]

  -- A lookup after the write of an object to its slot returns the object.
  pub find-set_self :
      (kind maximum : ℕ) (slots : List A) (i : ℕ) {y : A} (x : A)
      → get_elem? slots i ≡ some y
      → id_of x ≡ base_of kind + (i + 1)
      → used x ≡ true
      → length slots ≤ maximum
      → maximum < 0x1000000
      → find kind maximum (set slots i x) (base_of kind + (i + 1)) ≡ some (i, x)
  unfolding find
  find-set_self kind maximum slots i x there e u fits small =
      let lt = get_elem?-lt slots i there in
      rw
        (
          quotient kind i (omega arith),
          remainder kind i (omega arith),
          add-sub i,
          get_elem?-set_self slots i x lt,
          u,
        )
        (ground (arith, e))

  -- A lookup after the slot was cleared finds nothing.
  pub find-set_free :
      (kind maximum : ℕ) (slots : List A) (i : ℕ) {y : A} (x : A)
      → get_elem? slots i ≡ some y
      → used x ≡ false
      → length slots ≤ maximum
      → maximum < 0x1000000
      → find kind maximum (set slots i x) (base_of kind + (i + 1)) ≡ none
  find-set_free kind maximum slots i x there u fits small =
      let lt = get_elem?-lt slots i there in
      find_free kind maximum (set slots i x) i (get_elem?-set_self slots i x lt) u (omega arith)
        small

  -- There is no free slot only when each is taken.
  pub first_free-none :
      (index : ℕ) (slots : List A) (k : ℕ) {x : A}
      → first_free index slots ≡ none
      → get_elem? slots k ≡ some x
      → used x ≡ true
  unfolding first_free
  first_free-none index [] k h e = cc
  first_free-none index (y ∷ slots) zero h e = ground arith
  first_free-none index (y ∷ slots) (suc k) h e = elim (Bool-cases (used y)) [
    | inl taken ↦ first_free-none (index + 1) slots k (rw taken at h) e
    | inr free ↦ absurd (ground (arith, h))
  ]

  pub first_free-some :
      (index : ℕ) (slots : List A) {i : ℕ}
      → first_free index slots ≡ some i
      → (k : ℕ) × (x : A) × (i ≡ index + k) × (get_elem? slots k ≡ some x) × (used x ≡ false)
  unfolding first_free
  first_free-some index [] h = cc
  first_free-some index (x ∷ slots) {i} h = elim (Bool-cases (used x)) [
    | inl taken ↦
        let (k, y, e, there, free) = first_free-some (index + 1) slots (rw taken at h) in
        (suc k, y, omega (arith, e), there, free)
    | inr free ↦ (0, x, ground arith, refl, free)
  ]

  -- A lookup that succeeds still does after an object was written to a slot.
  pub find-set_kept :
      (kind maximum : ℕ) (slots : List A) (i : ℕ) {y : A} (x : A) (id : ℕ)
      → get_elem? slots i ≡ some y
      → id_of x ≡ base_of kind + (i + 1)
      → used x ≡ true
      → length slots ≤ maximum
      → maximum < 0x1000000
      → find kind maximum slots id ≢ none
      → find kind maximum (set slots i x) id ≢ none
  find-set_kept kind maximum slots i x id there e u fits small found missing =
      elim (Bool-cases (id == base_of kind + (i + 1))) [
        | inl own ↦
            let same : id ≡ base_of kind + (i + 1) = (==_iff id (base_of kind + (i + 1))).0 own in
            let here = find-set_self kind maximum slots i x there e u fits small in
            absurd (let bad = rw same at missing in cc)
        | inr other ↦ found (
            sym (find-set_ne kind maximum slots i x id (==-false id (base_of kind + (i + 1)) other))
            ∙ missing)
      ]
