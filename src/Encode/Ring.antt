-- ===== src/Encode/Ring.antt =====
-- The ring of src/encode.c as a list of buffer IDs.
use venus_vaapi_driver.Common.{
  ℕ, zero, suc, ◌+◌, ◌%◌, ◌≤◌, ◌<◌, ◌≡◌, refl, ap, sym, subst, ◌∙◌, Bool, true, false, not, ◌||◌,
  Option, none, some, List, [], ◌∷◌, ◌++◌, arith, ◌==◌, ==_iff, ==-false, length, length-set,
  get_elem?-set_self, get_elem?-set_ne, if◌then◌else◌, Bool-cases, inl, inr,
}
use venus_vaapi_driver.Common.Results.{ok, enoent, ealready, ok-injective, guard-eq-ok}
use venus_vaapi_driver.Backend.{
  Buffer, Context, Backend, max_surfaces, max_buffers, find_buffer, buffer_slot,
}
use venus_vaapi_driver.Backend.Table.{find-some, find-set_self}
use venus_vaapi_driver.Encode.{
  or_invalid, entry_at, set_entry, is_queued, set_buffer, is_coded, queue_found, stamped, pushed,
  queue_coded_buffer,
}

-- `n` values of a function, from one place on.
abbrev pub view : (ℕ → ℕ) → ℕ → ℕ → List ℕ
view p start zero = []
view p start (suc n) = p start ∷ view p (start + 1) n

-- The buffers that wait, the oldest first.
abbrev pub waiting : Context → List ℕ
waiting context =
    view (entry_at context.encode_queue context.encode_queue_head) 0 context.encode_queue_count

pub view-ext :
    (p q : ℕ → ℕ) (start n : ℕ)
    → ((j : ℕ) → start ≤ j → j < start + n → p j ≡ q j)
    → view p start n ≡ view q start n
view-ext p q start zero h = refl
view-ext p q start (suc n) h =
    rw
      (
        h start (omega arith) (omega arith),
        view-ext p q (start + 1) n (λ j le lt. h j (omega arith) (omega arith)),
      )
      refl

pub view-snoc :
    (p : ℕ → ℕ) (start n : ℕ) → view p start (n + 1) ≡ view p start n ++ p (start + n) ∷ []
view-snoc p start zero = rw (let e : start + 0 ≡ start = omega arith in e) refl
view-snoc p start (suc n) =
    rw
      (
        let e : suc n + 1 ≡ suc (n + 1) = omega arith in e,
        view-snoc p (start + 1) n,
        let e : start + 1 + n ≡ start + suc n = omega arith in e,
      )
      refl

-- The array is whole and holds at most its length.
pub record IsRing (context : Context) : Type 0 where
  pub whole : length context.encode_queue ≡ max_surfaces
  pub fits : context.encode_queue_count ≤ max_surfaces

-- A write to one entry changes no other.
pub entry_at-set_entry :
    (queue : List ℕ) (head i j id : ℕ)
    → length queue ≡ max_surfaces
    → i < max_surfaces
    → j < max_surfaces
    → entry_at (set_entry queue head i id) head j ≡ (if i == j then id else entry_at queue head j)
entry_at-set_entry queue head i j id whole hi hj = elim (Bool-cases (i == j)) [
  | inl same ↦
      rw (same, (==_iff i j).0 same)
        (ap or_invalid (get_elem?-set_self queue ((head + j) % 64) id (omega (arith, whole))))
  | inr other ↦ rw other (
      ap or_invalid (
        get_elem?-set_ne queue ((head + i) % 64) ((head + j) % 64) id
          (λ e. ==-false i j other (omega (arith, e)))))
]

-- Whether an ID waits.
abbrev pub is_member : List ℕ → ℕ → Bool
is_member [] id = false
is_member (x ∷ xs) id = x == id || is_member xs id

is_queued-view :
    (queue : List ℕ) (head offset n id : ℕ)
    → is_queued queue head offset n id ≡ is_member (view (entry_at queue head) offset n) id
is_queued-view queue head offset zero id = refl
is_queued-view queue head offset (suc n) id = rw (is_queued-view queue head (offset + 1) n id) refl

abbrev pub written : Context → ℕ → ℕ → ℕ
written context id =
    entry_at
      (set_entry context.encode_queue context.encode_queue_head context.encode_queue_count id)
      context.encode_queue_head

pub same_entry :
    (context : Context) (id : ℕ)
    → IsRing context
    → context.encode_queue_count < max_surfaces
    → (j : ℕ) → j < max_surfaces
    → written context id j ≡ (
        if context.encode_queue_count == j
        then id
        else entry_at context.encode_queue context.encode_queue_head j)
same_entry context id ring small j lt =
    entry_at-set_entry context.encode_queue context.encode_queue_head context.encode_queue_count j
      id ring.whole small lt

push_view :
    (context : Context) (id : ℕ)
    → IsRing context
    → context.encode_queue_count < max_surfaces
    → view (written context id) 0 (context.encode_queue_count + 1) ≡ waiting context ++ id ∷ []
push_view context id ring small =
    view-snoc (written context id) 0 context.encode_queue_count
    ∙ rw
        (
          view-ext (written context id) (entry_at context.encode_queue context.encode_queue_head) 0
              context.encode_queue_count
              (λ j le lt. rw (same_entry context id ring small j (omega arith)) (ground arith)),
          same_entry context id ring small (0 + context.encode_queue_count) (omega arith),
        )
        (rw
          (let e : (context.encode_queue_count == 0 + context.encode_queue_count) ≡ true =
              ground arith in
            e)
          refl)

-- What a successful call has done: the buffer of the ID stands last in the queue, in which it did
-- not stand, and carries the tag of the frame and the number of the picture.
pub record IsQueued (context after : Context) (backend : Backend) (id tag : ℕ) : Type 0 where
  pub ring : IsRing after
  pub last : waiting after ≡ waiting context ++ id ∷ []
  pub new : is_member (waiting context) id ≡ false
  pub index : ℕ
  pub buffer : Buffer
  pub stored : find_buffer backend id ≡ some (index, buffer)
  pub tagged : buffer.coded_tag ≡ tag
  pub numbered : buffer.coded_sequence ≡ context.encode_sequence
  pub coded : is_coded buffer.kind ≡ true

pub found_after :
    (backend : Backend) (id i : ℕ) {buffer : Buffer} (new : Buffer)
    → length backend.buffers ≡ max_buffers
    → find_buffer backend id ≡ some (i, buffer)
    → new.id ≡ buffer.id
    → new.used ≡ buffer.used
    → find_buffer (set_buffer backend i new) id ≡ some (i, new)
unfolding find_buffer
found_after backend id i new sized found same_id same_used =
    let (there, used, own, lt, e) = find-some buffer_slot 4 max_buffers backend.buffers id found in
    rw e (
      find-set_self buffer_slot 4 max_buffers backend.buffers i new there
        (omega (arith, same_id, own, e)) (same_used ∙ used) (omega (arith, sized)) (omega arith))

IsQueued-from :
    (backend : Backend) (context : Context) (id tag i : ℕ) (buffer : Buffer)
    → IsRing context
    → length backend.buffers ≡ max_buffers
    → context.encode_queue_count < max_surfaces
    → find_buffer backend id ≡ some (i, buffer)
    → is_coded buffer.kind ≡ true
    → is_member (waiting context) id ≡ false
    → IsQueued context
        (pushed context id)
        (set_buffer backend i (stamped context buffer tag))
        id
        tag
unfolding pushed
IsQueued-from backend context id tag i buffer ring sized small found coded new = record {
  ring = record { whole = length-set context.encode_queue _ id ∙ ring.whole; fits = omega arith };
  last = push_view context id ring small;
  new = new;
  index = i;
  buffer = stamped context buffer tag;
  stored = found_after backend id i _ sized found refl refl;
  tagged = refl;
  numbered = refl;
  coded = coded;
}

pub queue_found-eq-ok :
    (backend : Backend) (context : Context) (id tag i : ℕ) (buffer : Buffer)
    {result : Backend × Context}
    → queue_found backend context id tag (some (i, buffer)) ≡ ok result
    → (is_coded buffer.kind ≡ true)
      × (is_member (waiting context) id ≡ false)
      × (ok (set_buffer backend i (stamped context buffer tag), pushed context id) ≡ ok result)
queue_found-eq-ok backend context id tag i buffer g =
    let (valid, g1) =
      guard-eq-ok (not (is_coded buffer.kind) || not (buffer.context_id == context.id)) enoent _
        g in
    let (new, g2) =
      guard-eq-ok
        (is_queued context.encode_queue context.encode_queue_head 0 context.encode_queue_count id)
        ealready _ g1 in
    (
      ground (arith, valid),
      sym (
            is_queued-view context.encode_queue context.encode_queue_head 0
              context.encode_queue_count id)
          ∙ new,
      g2,
    )

-- A coded buffer that is queued stands last in the queue, in which it did not stand before, and
-- its slot carries the tag of the frame and the number of the picture.
pub queue_coded_buffer_ok :
    (backend : Backend) (context : Context) (id tag : ℕ) (backend' : Backend) (after : Context)
    → IsRing context
    → length backend.buffers ≡ max_buffers
    → queue_coded_buffer backend context id tag ≡ ok (backend', after)
    → IsQueued context after backend' id tag
unfolding queue_coded_buffer
queue_coded_buffer_ok backend context id tag backend' after ring sized h =
    from_found (find_buffer backend id) refl (ground (arith, h)) (ground (arith, h))
  where
    from_found :
        (found : Option (ℕ × Buffer))
        → find_buffer backend id ≡ found
        → context.encode_queue_count < max_surfaces
        → queue_found backend context id tag found ≡ ok (backend', after)
        → IsQueued context after backend' id tag
    from_found none found small g = cc
    from_found (some (i, buffer)) found small g =
        let (valid, new, g2) = queue_found-eq-ok backend context id tag i buffer g in
        subst (λ (p : Backend × Context). IsQueued context p.1 p.0 id tag) (ok-injective g2)
          (IsQueued-from backend context id tag i buffer ring sized small found valid new)
