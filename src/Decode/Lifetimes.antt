-- ===== src/Decode/Lifetimes.antt =====
-- The lifetimes of the contexts of src/decode.c.
use venus_vaapi_driver.Common.{
  ℕ, ◌≤◌, ◌<◌, ◌≡◌, ◌≢◌, refl, sym, subst, ◌∙◌, true, ◌&&◌, Option, none, some, List, [], ◌∷◌, map,
  length, All, All-set, arith, ◌==◌, if-holds,
}
use venus_vaapi_driver.VaTypes.{invalid_id, va_ok, va_ok-injective}
use venus_vaapi_driver.Backend.{
  Backend, Buffer, Context, Surface, context_slot, max_contexts, empty_context, find_config,
  find_context, free_buffer,
}
use venus_vaapi_driver.Backend.Table.{find-some, find-set_ne, find-set_free}
use venus_vaapi_driver.Backend.Lifetimes.{IsLinked}
use venus_vaapi_driver.Decode.Contexts.{
  drop_buffer, forget_context, without_context, destroy_context_found, destroy_context,
}

-- What a destroyed context leaves.
pub record IsDestroyed (before after : Backend) (id : ℕ) : Type 0 where
  pub linked : IsLinked after
  pub gone : find_context after id ≡ none
  pub others : (other : ℕ) → other ≢ id → find_context after other ≡ find_context before other
  pub no_buffer : All (λ (b : Buffer). b.used ≡ true → b.context_id ≢ id) after.buffers
  pub no_surface : All (λ (s : Surface). s.used ≡ true → s.context_id ≢ id) after.surfaces

dropped-All :
    (id : ℕ) (buffers : List Buffer)
    → All (λ (b : Buffer). b.used ≡ true → b.context_id ≢ id) (map (drop_buffer id) buffers)
unfolding free_buffer
dropped-All id [] = tt
dropped-All id (b ∷ buffers) = (
  if-holds (λ (x : Buffer). x.used ≡ true → x.context_id ≢ id) (b.used && b.context_id == id)
      (λ own.
        if-holds (λ (x : Buffer). x.used ≡ true → x.context_id ≢ id) b.used (λ used live. absurd cc)
          (λ unused live. absurd cc))
      (λ other live same. ground (arith, other, live, same)),
  dropped-All id buffers,
)

forgotten-All :
    (id : ℕ) (surfaces : List Surface)
    → id < invalid_id
    → All (λ (s : Surface). s.used ≡ true → s.context_id ≢ id) (map (forget_context id) surfaces)
forgotten-All id [] small = tt
forgotten-All id (s ∷ surfaces) small = (
  if-holds (λ (x : Surface). x.used ≡ true → x.context_id ≢ id) (s.used && s.context_id == id)
      (λ own live same. omega (arith, small, same))
      (λ other live same. ground (arith, other, live, same)),
  forgotten-All id surfaces small,
)

destroy_context_found-IsDestroyed :
    (backend : Backend) (id : ℕ) (found : Option (ℕ × Context)) {after : Backend}
    → IsLinked backend
    → length backend.contexts ≤ max_contexts
    → find_context backend id ≡ found
    → destroy_context_found backend found ≡ va_ok after
    → IsDestroyed backend after id
unfolding find_context find_config without_context
destroy_context_found-IsDestroyed backend id none sound fits e h = cc
destroy_context_found-IsDestroyed backend id (some (index, context)) sound fits e h =
    let (there, used, named, within, own) =
      find-some context_slot 2 max_contexts backend.contexts id e in
    subst (λ (b : Backend). IsDestroyed backend b id) (va_ok-injective h)
      (record {
        linked = record {
          sized = sound.sized;
          numbered = sound.numbered;
          linked =
              All-set (λ (c : Context). c.used ≡ true → find_config backend c.config_id ≢ none)
                backend.contexts index empty_context sound.linked (λ u. absurd cc);
        };
        gone =
            subst (λ i. find_context (without_context backend index context) i ≡ none) (sym own)
              (find-set_free context_slot 2 max_contexts backend.contexts index empty_context there
                refl fits (omega arith));
        others = λ other apart.
            find-set_ne context_slot 2 max_contexts backend.contexts index empty_context other
              (λ same. apart (same ∙ sym own));
        no_buffer =
            subst
              (λ i.
                All (λ (b : Buffer). b.used ≡ true → b.context_id ≢ i)
                  (map (drop_buffer context.id) backend.buffers))
              named (dropped-All context.id backend.buffers);
        no_surface =
            subst
              (λ i.
                All (λ (s : Surface). s.used ≡ true → s.context_id ≢ i)
                  (map (forget_context context.id) backend.surfaces))
              named (forgotten-All context.id backend.surfaces (omega (arith, named, own, within)));
      })

-- A context that is destroyed is not found any more, no buffer and no surface refers to it, every
-- other context is found as before, and the tables stay linked.
pub destroy_context_ok :
    (backend : Backend) (id : ℕ) {after : Backend}
    → IsLinked backend
    → length backend.contexts ≤ max_contexts
    → destroy_context backend id ≡ va_ok after
    → IsDestroyed backend after id
unfolding destroy_context
destroy_context_ok backend id sound fits h =
    destroy_context_found-IsDestroyed backend id (find_context backend id) sound fits refl h
