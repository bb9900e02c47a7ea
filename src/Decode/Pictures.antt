-- ===== src/Decode/Pictures.antt =====
-- What backend_render_picture of src/decode.c accepts.
use venus_vaapi_driver.Common.{
  sym, ◌≢◌, ℕ, ◌+◌, ◌≤◌, ◌≡◌, refl, ◌∙◌, subst, true, not, Option, none, some, List, ◌++◌, arith,
  ltb, ltb→le, length, length-append, All, [], ◌∷◌, Option-cases, inl, inr,
}
use venus_vaapi_driver.VaTypes.{
  va_ok, va_ok-injective, va_guard-eq-ok, invalid_context, invalid_buffer, max_num_exceeded,
}
use venus_vaapi_driver.Backend.{
  Buffer, find_buffer, Context, Backend, find_context, max_contexts, context_slot,
}
use venus_vaapi_driver.Backend.Table.{find-set_ne, find-some, find-set_self}
use venus_vaapi_driver.Decode.{
  owns_all, set_context, render_found, render_picture, max_pending_buffers,
}

-- A buffer that is in the table, and that was made for a context.
pub record Owned (backend : Backend) (context_id buffer_id : ℕ) : Type 0 where
  pub slot : ℕ
  pub buffer : Buffer
  pub found : find_buffer backend buffer_id ≡ some (slot, buffer)
  pub own : buffer.context_id ≡ context_id

owns_all-All :
    (backend : Backend) (id : ℕ) (buffers : List ℕ)
    → owns_all backend id buffers ≡ true
    → All (Owned backend id) buffers
owns_all-All backend id [] h = tt
owns_all-All backend id (b ∷ buffers) h = elim (Option-cases (find_buffer backend b)) [
  | inl missing ↦ absurd (let bad = rw missing at h in cc)
  | inr ((slot, buffer), found) ↦
      let owned = rw found at h in
      (
        record { slot = slot; buffer = buffer; found = found; own = ground (arith, owned) },
        owns_all-All backend id buffers (ground (arith, owned)),
      )
]

-- What a successful call has done to the context of the ID.
pub record IsRendered (before after : Backend) (id : ℕ) (buffers : List ℕ) : Type 0 where
  pub index : ℕ
  pub context : Context
  pub found : find_context before id ≡ some (index, context)
  pub in_picture : context.in_picture ≡ true
  pub stored :
      find_context after id ≡ some (index, record context { pending = context.pending ++ buffers })
  pub fits : length (context.pending ++ buffers) ≤ max_pending_buffers
  pub owned : All (Owned before id) buffers
  pub others : (other : ℕ) → other ≢ id → find_context after other ≡ find_context before other

context_after :
    (backend : Backend) (id i : ℕ) {context : Context} (next : Context)
    → length backend.contexts ≡ max_contexts
    → find_context backend id ≡ some (i, context)
    → next.id ≡ context.id
    → next.used ≡ context.used
    → find_context (set_context backend i next) id ≡ some (i, next)
unfolding find_context
context_after backend id i next sized found same_id same_used =
    let (there, used, own, lt, e) =
      find-some context_slot 2 max_contexts backend.contexts id found in
    rw e (
      find-set_self context_slot 2 max_contexts backend.contexts i next there
        (omega (arith, same_id, own, e)) (same_used ∙ used) (omega (arith, sized)) (omega arith))

others_found :
    (backend : Backend) (id i : ℕ) {context : Context} (next : Context) (other : ℕ)
    → find_context backend id ≡ some (i, context)
    → other ≢ id
    → find_context (set_context backend i next) other ≡ find_context backend other
unfolding find_context
others_found backend id i next other found apart =
    let (there, used, own, lt, e) =
      find-some context_slot 2 max_contexts backend.contexts id found in
    find-set_ne context_slot 2 max_contexts backend.contexts i next other
      (λ same. apart (same ∙ sym e))

-- Buffers are added only to a picture that has begun, behind those that it has, at most 128 in
-- all, and each is in the table with the context as its own. The other
-- contexts stay.
pub render_picture_ok :
    (backend after : Backend) (id : ℕ) (buffers : List ℕ)
    → length backend.contexts ≡ max_contexts
    → render_picture backend id buffers ≡ va_ok after
    → IsRendered backend after id buffers
unfolding render_picture
render_picture_ok backend after id buffers sized h = from_found (find_context backend id) refl h
  where
    from_found :
        (found : Option (ℕ × Context))
        → find_context backend id ≡ found
        → render_found backend id buffers found ≡ va_ok after
        → IsRendered backend after id buffers
    from_found none found g = cc
    from_found (some (i, context)) found g =
        let (a, g1) = va_guard-eq-ok (not context.in_picture) invalid_context _ g in
        let (b, g2) =
          va_guard-eq-ok (ltb max_pending_buffers (length context.pending + length buffers))
            max_num_exceeded _ g1 in
        let (c, g3) = va_guard-eq-ok (not (owns_all backend id buffers)) invalid_buffer _ g2 in
        subst (λ (b : Backend). IsRendered backend b id buffers) (va_ok-injective g3)
          (record {
            index = i;
            context = context;
            found = found;
            in_picture = ground (arith, a);
            stored =
                context_after backend id i (record context { pending = context.pending ++ buffers })
                  sized found refl refl;
            fits = omega (
              arith,
              ltb→le max_pending_buffers (length context.pending + length buffers) b,
              length-append context.pending buffers,
            );
            owned = owns_all-All backend id buffers (ground (arith, c));
            others = λ other apart.
                others_found backend id i (record context { pending = context.pending ++ buffers })
                  other found apart;
          })
