-- ===== src/Backend/Lifetimes.antt =====
-- The lifetimes of configurations in src/backend.c.
use venus_vaapi_driver.Common.{
  ℕ, ◌+◌, ◌<◌, ◌≡◌, refl, ◌≢◌, sym, subst, ◌∙◌, true, false, Option, none, some, List, [], ◌∷◌,
  arith, length, length-set, get_elem?, get_elem?-lt, set, All, Bool-cases, Option-cases, inl, inr,
}
use venus_vaapi_driver.VaTypes.{Profile, Entrypoint, va_ok, va_ok-injective, >>?-eq-ok, Attrib}
use venus_vaapi_driver.Backend.{
  Config, Context, Backend, config_slot, max_configs, empty_config, find_config,
}
use venus_vaapi_driver.Backend.Table.{
  base_of, first_free, IsNumbered, IsNumbered-set, first_free-some, first_free-none, find,
  find-some, find_free, find-set_self, find-set_ne, find-set_free,
}
use venus_vaapi_driver.Backend.Profiles.{is_supported}
use venus_vaapi_driver.Backend.Asked.{asked, described_as_asked}
use venus_vaapi_driver.Backend.Configs.{
  Described, Chosen, check_attributes, default_choice, new_config, store_config, create_config,
  is_referenced, destroy_config, destroy_found, query_config_attributes, describe,
}

-- The table has its 16 slots, each object has the ID of its slot, and each context's
-- configuration exists.
pub record IsLinked (backend : Backend) : Type 0 where
  pub sized : length backend.configs ≡ max_configs
  pub numbered : IsNumbered config_slot 1 0 backend.configs
  pub linked :
      All (λ (c : Context). c.used ≡ true → find_config backend c.config_id ≢ none) backend.contexts

All-map2 :
    {P Q R : Context → Type 0} (contexts : List Context)
    → ((c : Context) → P c → Q c → R c)
    → All P contexts
    → All Q contexts
    → All R contexts
All-map2 [] f h g = tt
All-map2 (c ∷ contexts) f h g = (f c h.0 g.0, All-map2 contexts f h.1 g.1)

-- What a successful creation has done.
pub record IsCreated (before after : Backend) (id : ℕ) (described : Described) : Type 0 where
  pub valid : IsLinked after
  pub fresh : find_config before id ≡ none
  pub stored : query_config_attributes after id ≡ va_ok described
  pub others : (other : ℕ) → other ≢ id → find_config after other ≡ find_config before other

module _ (backend : Backend) (i : ℕ) (config : Config) where
  written : Backend
  written = record backend { configs = set backend.configs i config }

  others_kept :
      (other : ℕ)
      → other ≢ base_of 1 + (i + 1)
      → find_config written other ≡ find_config backend other
  unfolding find_config written
  others_kept other ne = find-set_ne config_slot 1 max_configs backend.configs i config other ne

  -- A write to a slot that no context refers to keeps the tables linked.
  written-IsLinked :
      {P : Context → Type 0}
      → IsLinked backend
      → (config.used ≡ true → config.id ≡ base_of 1 + (i + 1))
      → All P backend.contexts
      → ((c : Context)
          → P c
          → (c.used ≡ true → find_config backend c.config_id ≢ none)
          → c.used ≡ true
          → find_config written c.config_id ≢ none)
      → IsLinked written
  unfolding written
  written-IsLinked h own unused keeps = record {
    sized = length-set backend.configs i config ∙ h.sized;
    numbered =
        IsNumbered-set config_slot 1 0 backend.configs i config h.numbered
          (λ v. omega (arith, own v));
    linked = All-map2 backend.contexts keeps unused h.linked;
  }

  created :
      {old : Config}
      → IsLinked backend
      → get_elem? backend.configs i ≡ some old
      → old.used ≡ false
      → config.used ≡ true
      → config.id ≡ base_of 1 + (i + 1)
      → IsCreated backend written (base_of 1 + (i + 1)) (describe config)
  unfolding find_config query_config_attributes written
  created {old} h there unused u own = record {
    valid =
        written-IsLinked h (λ v. own) h.linked
          (λ c kept found v e.
            found v (sym (others_kept c.config_id (λ same. found v (rw same unknown))) ∙ e));
    fresh = unknown;
    stored = rw stored refl;
    others = others_kept;
  }
    where
      fits : i < max_configs
      fits = omega (arith, get_elem?-lt backend.configs i there, h.sized)

      unknown : find config_slot 1 max_configs backend.configs (base_of 1 + (i + 1)) ≡ none
      unknown =
          find_free config_slot 1 max_configs backend.configs i there unused fits (omega arith)

      stored :
          find config_slot 1 max_configs (set backend.configs i config) (base_of 1 + (i + 1))
          ≡ some (i, config)
      stored =
          find-set_self config_slot 1 max_configs backend.configs i config there own u
            (omega (arith, h.sized)) (omega arith)

store-IsCreated :
    (backend : Backend) (profile : Profile) (entrypoint : Entrypoint) (chosen : Chosen) (i : ℕ)
    → IsLinked backend
    → first_free config_slot 0 backend.configs ≡ some i
    → IsCreated backend
        (record backend {
          configs = set backend.configs i (new_config profile entrypoint chosen i);
        })
        (base_of 1 + (i + 1))
        (describe (new_config profile entrypoint chosen i))
unfolding written
store-IsCreated backend profile entrypoint chosen i h free =
    let (k, old, e, there, unused) = first_free-some config_slot 0 backend.configs free in
    created backend i (new_config profile entrypoint chosen i) h
      (subst (λ (n : ℕ). get_elem? backend.configs n ≡ some old) (omega (arith, e)) there) unused
      refl refl

-- A configuration that is created gets an ID that named none. A query of the ID then gives the
-- profile and the entrypoint, the surface format of the profile and, for an encoder, the last rate
-- control and packed headers that the caller asked for, or VBR and none. Every other ID names what it
-- named before, and the tables stay linked. Only what the device supports is created.
pub create_config_ok :
    (backend : Backend) (variable : Option (List ℕ)) (profile : Profile) (entrypoint : Entrypoint)
    (attributes : List Attrib) (after : Backend) (id : ℕ)
    → IsLinked backend
    → create_config backend variable profile entrypoint attributes ≡ va_ok (after, id)
    → (is_supported backend.capabilities variable profile entrypoint ≡ true)
      × IsCreated backend after id (asked profile entrypoint attributes)
unfolding create_config
create_config_ok backend variable profile entrypoint attributes after id h e =
    elim (Bool-cases (is_supported backend.capabilities variable profile entrypoint)) [
      | inl supported ↦
          let (chosen, checked, rest) =
            >>?-eq-ok (check_attributes profile entrypoint (default_choice entrypoint) attributes) _
              (rw supported at e) in
          (supported, from_free chosen (first_free config_slot 0 backend.configs) refl checked rest)
      | inr unsupported ↦ absurd (ground (arith, rw unsupported at e))
    ]
  where
    from_free :
        (chosen : Chosen) (free : Option ℕ)
        → first_free config_slot 0 backend.configs ≡ free
        → check_attributes profile entrypoint (default_choice entrypoint) attributes ≡ va_ok chosen
        → store_config backend profile entrypoint chosen free ≡ va_ok (after, id)
        → IsCreated backend after id (asked profile entrypoint attributes)
    from_free chosen none free checked g = cc
    from_free chosen (some i) free checked g =
        subst (λ d. IsCreated backend after id d)
          (described_as_asked profile entrypoint attributes chosen i checked)
          (subst
            (λ (p : Backend × ℕ).
              IsCreated backend p.0 p.1 (describe (new_config profile entrypoint chosen i)))
            (va_ok-injective g) (store-IsCreated backend profile entrypoint chosen i h free))

-- The creation of a supported configuration with valid attributes succeeds when the table has a
-- free slot.
pub create_config_total :
    (backend : Backend) (variable : Option (List ℕ)) (profile : Profile) (entrypoint : Entrypoint)
    (attributes : List Attrib) (chosen : Chosen) (i : ℕ) (config : Config)
    → is_supported backend.capabilities variable profile entrypoint ≡ true
    → check_attributes profile entrypoint (default_choice entrypoint) attributes ≡ va_ok chosen
    → get_elem? backend.configs i ≡ some config
    → config.used ≡ false
    → (after : Backend) × (id : ℕ) × (create_config backend variable profile entrypoint attributes
        ≡ va_ok (after, id))
unfolding create_config written
create_config_total backend variable profile entrypoint attributes chosen i config supported checked
      there free =
    elim (Option-cases (first_free config_slot 0 backend.configs)) [
      | inl full ↦
          absurd (ground (arith, first_free-none config_slot 0 backend.configs i full there))
      | inr (k, first) ↦ (
        written backend k (new_config profile entrypoint chosen k),
        base_of 1 + (k + 1),
        rw (supported, checked, first) refl,
      )
    ]

referenced-All :
    (contexts : List Context) (id : ℕ)
    → is_referenced contexts id ≡ false
    → All (λ (c : Context). c.used ≡ true → c.config_id ≢ id) contexts
referenced-All [] id h = tt
referenced-All (c ∷ contexts) id h = (ground arith, referenced-All contexts id (ground (arith, h)))

destroyed :
    (backend : Backend) (id i : ℕ) {config : Config}
    → IsLinked backend
    → find_config backend id ≡ some (i, config)
    → is_referenced backend.contexts id ≡ false
    → (is_referenced backend.contexts id ≡ false)
      × (find_config (written backend i empty_config) id ≡ none)
      × ((other : ℕ)
          → other ≢ id
          → find_config (written backend i empty_config) other ≡ find_config backend other)
      × IsLinked (written backend i empty_config)
unfolding find_config written
destroyed backend id i h found idle =
    let (there, used, own, lt, e) = find-some config_slot 1 max_configs backend.configs id found in
    (
      idle,
      rw e (
          find-set_free config_slot 1 max_configs backend.configs i empty_config there refl
            (omega (arith, h.sized)) (omega arith)),
      (λ other ne. others_kept backend i empty_config other (λ same. ne (same ∙ sym e))),
      written-IsLinked backend i empty_config h (λ v. cc) (referenced-All backend.contexts id idle)
          (λ c unused kept v gone. kept v (
            sym (others_kept backend i empty_config c.config_id (λ same. unused v (same ∙ sym e)))
            ∙ gone)),
    )

-- Destroying a configuration fails while a context uses it. Otherwise its ID names nothing
-- afterwards, every other ID names what it named before, and the tables stay linked.
pub destroy_config_ok :
    (backend after : Backend) (id : ℕ)
    → IsLinked backend
    → destroy_config backend id ≡ va_ok after
    → (is_referenced backend.contexts id ≡ false)
      × (find_config after id ≡ none)
      × ((other : ℕ) → other ≢ id → find_config after other ≡ find_config backend other)
      × IsLinked after
unfolding destroy_config written
destroy_config_ok backend after id h e = from_found (find_config backend id) refl e
  where
    from_found :
        (found : Option (ℕ × Config))
        → find_config backend id ≡ found
        → destroy_found backend id found ≡ va_ok after
        → (is_referenced backend.contexts id ≡ false)
          × (find_config after id ≡ none)
          × ((other : ℕ) → other ≢ id → find_config after other ≡ find_config backend other)
          × IsLinked after
    from_found none found g = cc
    from_found (some (i, config)) found g = elim (Bool-cases (is_referenced backend.contexts id)) [
      | inl busy ↦ absurd (ground (arith, rw busy at g))
      | inr idle ↦
          subst
            (λ (b : Backend).
              (is_referenced backend.contexts id ≡ false)
              × (find_config b id ≡ none)
              × ((other : ℕ) → other ≢ id → find_config b other ≡ find_config backend other)
              × IsLinked b)
            (va_ok-injective (rw idle at g)) (destroyed backend id i h found idle)
    ]
