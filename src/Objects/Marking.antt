-- ===== src/Objects/Marking.antt =====
-- The calls of src/backend.c and src/decode.c that make configurations and contexts, and destroy configurations, keep the tables
-- of src/objects.c sound.
use venus_vaapi_driver.Common.{
  ℕ, ◌+◌, ◌≡◌, refl, subst, ◌∙◌, not, Option, none, some, List, [], ◌∷◌, arith, length-set, set,
}
use venus_vaapi_driver.VaTypes.{
  Profile, Entrypoint, Attrib, va_ok, va_ok-injective, va_guard-eq-ok, >>?-eq-ok,
}
use venus_vaapi_driver.Backend.{
  Backend, Config, Context, Surface, surface_slot, config_slot, context_slot, max_surfaces,
  find_config, find_buffer, find_surface,
}
use venus_vaapi_driver.Backend.Table.{base_of, first_free, find-some, find-set_kept, IsNumbered-set}
use venus_vaapi_driver.Backend.Configs.{
  is_referenced, Chosen, store_config, create_config, destroy_config, destroy_found,
  check_attributes, default_choice,
}
use venus_vaapi_driver.V4l2Decoder.Device.{Device}
use venus_vaapi_driver.Decode.Contexts.{
  Started, new_context, are_targets, mark_target, mark_targets, open_for, context_at, context_for,
  create_context,
}
use venus_vaapi_driver.Objects.Soundness.{IsSound}

-- The tables of configurations and contexts may be anything.
with_tables-IsSound :
    (backend : Backend) (configs : List Config) (contexts : List Context)
    → IsSound backend
    → IsSound (record backend { configs = configs; contexts = contexts })
unfolding find_buffer find_surface
with_tables-IsSound backend configs contexts sound = record {
  buffers_sized = sound.buffers_sized;
  images_sized = sound.images_sized;
  surfaces_sized = sound.surfaces_sized;
  buffers_numbered = sound.buffers_numbered;
  images_numbered = sound.images_numbered;
  surfaces_numbered = sound.surfaces_numbered;
  whole = sound.whole;
  has_buffer = sound.has_buffer;
  has_surface = sound.has_surface;
  distinct = sound.distinct;
}

mark_target-IsSound :
    (backend : Backend) (context_id id : ℕ) (found : Option (ℕ × Surface))
    → find_surface backend id ≡ found
    → IsSound backend
    → IsSound (mark_target backend context_id found)
unfolding find_buffer find_surface
mark_target-IsSound backend context_id id none e sound = sound
mark_target-IsSound backend context_id id (some (index, surface)) e sound =
    let (at, used, named, within, own) =
      find-some surface_slot 3 max_surfaces backend.surfaces id e in
    let new = record surface { context_id = context_id } in
    record {
      buffers_sized = sound.buffers_sized;
      images_sized = sound.images_sized;
      surfaces_sized = length-set backend.surfaces index new ∙ sound.surfaces_sized;
      buffers_numbered = sound.buffers_numbered;
      images_numbered = sound.images_numbered;
      surfaces_numbered =
          IsNumbered-set surface_slot 3 0 backend.surfaces index new sound.surfaces_numbered
            (λ u. omega (arith, named, own));
      whole = sound.whole;
      has_buffer = sound.has_buffer;
      has_surface = λ i image live is_used shown.
          find-set_kept surface_slot 3 max_surfaces backend.surfaces index new image.surface_id at
            (named ∙ own) used (omega (arith, sound.surfaces_sized)) (omega arith)
            (sound.has_surface i image live is_used shown);
      distinct = sound.distinct;
    }

mark_targets-IsSound :
    (backend : Backend) (context_id : ℕ) (ids : List ℕ)
    → IsSound backend
    → IsSound (mark_targets backend context_id ids)
mark_targets-IsSound backend context_id [] sound = sound
mark_targets-IsSound backend context_id (id ∷ ids) sound =
    mark_targets-IsSound (mark_target backend context_id (find_surface backend id)) context_id ids
      (mark_target-IsSound backend context_id id (find_surface backend id) refl sound)

module _ (device : Device) (before : Backend) (config_id width height : ℕ) (targets : List ℕ)
    (sound : IsSound before) {made : Started} where
  context_at-IsSound :
      (config : Config) (free : Option ℕ)
      → context_at device before config config_id width height targets free ≡ va_ok made
      → IsSound made.backend
  context_at-IsSound config none h = cc
  context_at-IsSound config (some index) h =
      let (decoder, opened, h') =
        >>?-eq-ok (open_for device config width height config.entrypoint) _ h in
      subst (λ (s : Started). IsSound s.backend) (va_ok-injective h')
        (mark_targets-IsSound _ (base_of 2 + (index + 1)) targets (
          with_tables-IsSound before before.configs
            (set before.contexts index (new_context config_id width height index)) sound))

  context_for-IsSound :
      (found : Option (ℕ × Config))
      → context_for device before config_id width height targets found ≡ va_ok made
      → IsSound made.backend
  context_for-IsSound none h = cc
  context_for-IsSound (some (slot, config)) h =
      let (are, h') =
        va_guard-eq-ok (not (are_targets before config.profile width height targets)) _ _ h in
      context_at-IsSound config (first_free context_slot 0 before.contexts) h'

  -- A context that is created marks its targets, and keeps the tables sound.
  pub create_context-IsSound :
      create_context device before config_id width height targets ≡ va_ok made
      → IsSound made.backend
  unfolding create_context
  create_context-IsSound h =
      let (sized, h') = va_guard-eq-ok _ _ _ h in
      context_for-IsSound (find_config before config_id) h'

store_config-IsSound :
    (before : Backend) (profile : Profile) (entrypoint : Entrypoint) (chosen : Chosen)
    (free : Option ℕ) {after : Backend} {id : ℕ}
    → IsSound before
    → store_config before profile entrypoint chosen free ≡ va_ok (after, id)
    → IsSound after
store_config-IsSound before profile entrypoint chosen none sound h = cc
store_config-IsSound before profile entrypoint chosen (some index) sound h =
    subst (λ (p : Backend × ℕ). IsSound p.0) (va_ok-injective h)
      (with_tables-IsSound before _ before.contexts sound)

-- A configuration that is created keeps the tables sound.
pub create_config-IsSound :
    (before : Backend) (variable : Option (List ℕ)) (profile : Profile) (entrypoint : Entrypoint)
    (attributes : List Attrib) {after : Backend} {id : ℕ}
    → IsSound before
    → create_config before variable profile entrypoint attributes ≡ va_ok (after, id)
    → IsSound after
unfolding create_config
create_config-IsSound before variable profile entrypoint attributes sound h =
    let (supported, h') = va_guard-eq-ok _ _ _ h in
    let (chosen, checked, h'') =
      >>?-eq-ok (check_attributes profile entrypoint (default_choice entrypoint) attributes) _ h' in
    store_config-IsSound before profile entrypoint chosen (first_free config_slot 0 before.configs)
      sound h''

destroy_found-IsSound :
    (before : Backend) (id : ℕ) (found : Option (ℕ × Config)) {after : Backend}
    → IsSound before
    → destroy_found before id found ≡ va_ok after
    → IsSound after
destroy_found-IsSound before id none sound h = cc
destroy_found-IsSound before id (some (index, config)) sound h =
    let (unused, same) = va_guard-eq-ok (is_referenced before.contexts id) _ _ h in
    subst IsSound (va_ok-injective same) (with_tables-IsSound before _ before.contexts sound)

-- A configuration that is destroyed leaves the tables sound.
pub destroy_config-IsSound :
    (before : Backend) (id : ℕ) {after : Backend}
    → IsSound before
    → destroy_config before id ≡ va_ok after
    → IsSound after
unfolding destroy_config
destroy_config-IsSound before id sound h =
    destroy_found-IsSound before id (find_config before id) sound h
