-- ===== src/Runtime/Modules/Records.antt =====
-- How the two writes to a module record change the registry.
use luauc.Prelude.{
  ℕ, ◌<◌, ◌≡◌, ◌≢◌, ◌∙◌, ap, arith, length, length-set, get_or-set_self, get_or-set_ne,
}
use luauc.Runtime.Modules.{
  ModuleRecord, Registry, Slot, Status, no_record, record_at, set_module_record_status,
  set_module_record_value,
}

-- Both slots of record `id` written.
unfoldable pub stored : Registry → ℕ → Slot → Status → Registry
stored registry id slot status =
    set_module_record_status (set_module_record_value registry id slot) id status

module _ (registry : Registry) (id : ℕ) where
  pub length-set_status :
      (status : Status) → length (set_module_record_status registry id status) ≡ length registry
  unfolding set_module_record_status
  length-set_status status = length-set registry id _

  pub length-set_value :
      (slot : Slot) → length (set_module_record_value registry id slot) ≡ length registry
  unfolding set_module_record_value
  length-set_value slot = length-set registry id _

  pub record_at-set_status :
      (status : Status)
      → id < length registry
      → record_at (set_module_record_status registry id status) id ≡ record {
        root = (record_at registry id).root;
        status = status;
        slot = (record_at registry id).slot;
      }
  unfolding set_module_record_status
  record_at-set_status status l = get_or-set_self registry id _ no_record l

  pub record_at-set_value :
      (slot : Slot)
      → id < length registry
      → record_at (set_module_record_value registry id slot) id ≡ record {
        root = (record_at registry id).root;
        status = (record_at registry id).status;
        slot = slot;
      }
  unfolding set_module_record_value
  record_at-set_value slot l = get_or-set_self registry id _ no_record l

  pub record_at-set_status_ne :
      (status : Status) (i : ℕ)
      → id ≢ i
      → record_at (set_module_record_status registry id status) i ≡ record_at registry i
  unfolding set_module_record_status
  record_at-set_status_ne status i h = get_or-set_ne registry id i _ no_record h

  pub record_at-set_value_ne :
      (slot : Slot) (i : ℕ)
      → id ≢ i
      → record_at (set_module_record_value registry id slot) i ≡ record_at registry i
  unfolding set_module_record_value
  record_at-set_value_ne slot i h = get_or-set_ne registry id i _ no_record h

module _ (registry : Registry) (id : ℕ) (slot : Slot) (status : Status) where
  pub length-stored : length (stored registry id slot status) ≡ length registry
  unfolding stored
  length-stored =
      length-set_status (set_module_record_value registry id slot) id status
      ∙ length-set_value registry id slot

  pub record_at-stored :
      id < length registry
      → record_at (stored registry id slot status) id
        ≡ record { root = (record_at registry id).root; status = status; slot = slot }
  unfolding stored
  record_at-stored l =
      record_at-set_status (set_module_record_value registry id slot) id status
        (omega (arith, length-set_value registry id slot))
      ∙ ap (λ (r : ModuleRecord). record { root = r.root; status = status; slot = r.slot })
          (record_at-set_value registry id slot l)

  pub record_at-stored_ne :
      (i : ℕ) → id ≢ i → record_at (stored registry id slot status) i ≡ record_at registry i
  unfolding stored
  record_at-stored_ne i h =
      record_at-set_status_ne (set_module_record_value registry id slot) id status i h
      ∙ record_at-set_value_ne registry id slot i h
