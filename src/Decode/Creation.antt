-- ===== src/Decode/Creation.antt =====
-- What the creation of a context in src/decode.c leaves.
use venus_vaapi_driver.Common.{
  [], ℕ, ◌+◌, ◌≤◌, ◌≡◌, ◌≢◌, false, none, some, List, length, get_elem?, set, All,
}
use venus_vaapi_driver.VaTypes.{invalid_id}
use venus_vaapi_driver.Backend.{
  Backend, Context, max_contexts, max_surfaces, find_config, find_context, find_surface,
}
use venus_vaapi_driver.Backend.Table.{base_of}
use venus_vaapi_driver.Backend.Lifetimes.{IsLinked}
use venus_vaapi_driver.V4l2Decoder.Device.{Device}
use venus_vaapi_driver.Decode.Contexts.{Started, new_context, mark_targets}
use venus_vaapi_driver.Decode.Targets.{RefersTo}

-- What a new context has, and what is kept of the others.
pub record IsStarted (before : Backend) (config_id width height : ℕ) (targets : List ℕ)
    (made : Started) : Type 0 where
  pub index : ℕ
  pub linked : IsLinked made.backend
  pub fresh : find_context before made.id ≡ none
  pub context : Context
  pub found : find_context made.backend made.id ≡ some (index, context)
  pub same_config : context.config_id ≡ config_id
  pub same_width : context.width ≡ width
  pub same_height : context.height ≡ height
  pub idle : context.in_picture ≡ false
  pub no_target : context.target ≡ invalid_id
  pub nothing_pending : context.pending ≡ []
  pub nothing_queued : context.encode_queue_count ≡ 0
  pub first_delivery : context.encode_delivery_sequence ≡ 1
  pub others :
      (other : ℕ) → other ≢ made.id → find_context made.backend other ≡ find_context before other
  pub marked : All (RefersTo made.backend made.id) targets

module _ (before : Backend) (config_id width height index : ℕ) (targets : List ℕ) {old : Context}
    (linked : IsLinked before) (contexts_fit : length before.contexts ≤ max_contexts)
    (surfaces_fit : length before.surfaces ≤ max_surfaces)
    (there : get_elem? before.contexts index ≡ some old) (free : old.used ≡ false)
    (has_config : find_config before config_id ≢ none)
    (are_found : All (λ id. find_surface before id ≢ none) targets) where
  new : Context
  new = new_context config_id width height index

  with_new : Backend
  with_new = record before { contexts = set before.contexts index new }

  after_marks : Backend
  after_marks = mark_targets with_new (base_of 2 + (index + 1)) targets
