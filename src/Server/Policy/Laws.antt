-- ===== src/Server/Policy/Laws.antt =====
-- What the policies guarantee.
use tcpadapter.Common.{
  ℕ, ◌≡◌, refl, Bool, true, false, ◌||◌, Result, ok, err, arith, ◌==◌, if◌then◌else◌, Bool-cases,
  inl, inr, some, Option-cases, Bytes, ◌≢◌, ◌⊎◌,
}
use tcpadapter.Common.Int.{pos, ◌≤ℤ◌, ◌<ℤ◌}
use tcpadapter.Queue.{
  Priority, high, fw, sync, query, other, Command, push, pop, pop_next, new_controller_queue,
}
use tcpadapter.Session.Types.{DeliveryPolicy}
use tcpadapter.Common.Dict.{lookup, nat_eq}
use tcpadapter.Protocol.Cmd.{fw_start, fw_block}
use tcpadapter.Server.Policy.{
  PolicyError, unsupported_command, canonical_priority, is_high_command, PolicyConfig,
  merge_delivery_policy, base_policy, delivery_policy_for_command, normalize_command_priority,
  command_allowed_in_modes,
}

pub record IsUsable (p : DeliveryPolicy) : Type 0 where
  pub times_out : pos 0 <ℤ p.ack_timeout
  pub counts : pos 0 ≤ℤ p.max_retries

base_policy-IsUsable : (cfg : PolicyConfig) → IsUsable (base_policy cfg)
base_policy-IsUsable cfg = record { times_out = ground arith; counts = ground arith }

merge-IsUsable :
    (base specific : DeliveryPolicy)
    → IsUsable base
    → IsUsable (merge_delivery_policy base specific)
unfolding merge_delivery_policy
merge-IsUsable base specific h = record {
  times_out = ground (arith, h.times_out);
  counts = ground (arith, h.counts);
}

if-IsUsable :
    (b : Bool) {p q : DeliveryPolicy} → IsUsable p → IsUsable q → IsUsable (if b then p else q)
if-IsUsable true h k = h
if-IsUsable false h k = k

-- Whatever the configuration says, each command has a positive acknowledgement timeout and a number
-- of retries that is not negative.
pub delivery_policy_for_command-IsUsable :
    (cfg : PolicyConfig) (c : Command) → IsUsable (delivery_policy_for_command cfg c)
unfolding delivery_policy_for_command
delivery_policy_for_command-IsUsable cfg c =
    let b = base_policy-IsUsable cfg in
    let merged = λ (s : DeliveryPolicy). merge-IsUsable (base_policy cfg) s b in
    let is_fw = c.command_id == fw_start || c.command_id == fw_block in
    elim c.priority
      as (λ p. IsUsable (delivery_policy_for_command cfg (record c { priority = p }))) [
        | query ↦ merged cfg.query
        | sync ↦ merged cfg.sync
        | fw ↦ merged cfg.fw
        | high ↦ if-IsUsable is_fw (merged cfg.fw) b
        | other _ ↦ if-IsUsable is_fw (merged cfg.fw) b
      ]

-- The classes that a mode leaves waiting.
query_waits :
    (id : ℕ) (fw_mode sync_mode : Bool)
    → lookup id canonical_priority ≡ some query
    → command_allowed_in_modes id fw_mode sync_mode ≡ true
    → (fw_mode ≡ false) × (sync_mode ≡ false)
unfolding command_allowed_in_modes is_high_command canonical_priority lookup
query_waits id false false e h = (refl, refl)
query_waits id true sync_mode e h = absurd (ground arith)
query_waits id false true e h = absurd (ground arith)

fw_waits :
    (id : ℕ) (fw_mode sync_mode : Bool)
    → lookup id canonical_priority ≡ some fw
    → command_allowed_in_modes id fw_mode sync_mode ≡ true
    → (fw_mode ≡ true) ⊎ ((fw_mode ≡ false) × (sync_mode ≡ false))
unfolding command_allowed_in_modes is_high_command canonical_priority lookup
fw_waits id false false e h = inr (refl, refl)
fw_waits id true sync_mode e h = inl refl
fw_waits id false true e h = absurd (ground arith)

sync_waits :
    (id : ℕ) (fw_mode sync_mode : Bool)
    → lookup id canonical_priority ≡ some sync
    → command_allowed_in_modes id fw_mode sync_mode ≡ true
    → fw_mode ≡ false
unfolding command_allowed_in_modes is_high_command canonical_priority lookup
sync_waits id false sync_mode e h = refl
sync_waits id true sync_mode e h = absurd (ground arith)

never_other : (id : ℕ) (p : Bytes) → lookup id canonical_priority ≢ some (other p)
unfolding canonical_priority lookup
never_other id p e = ground arith

module _ (c : Command) (fw_mode sync_mode : Bool) where
  leaves_class :
      (p : Priority)
      → lookup c.command_id canonical_priority ≡ some p
      → command_allowed_in_modes c.command_id fw_mode sync_mode ≡ true
      → pop_next fw_mode sync_mode (push new_controller_queue (record c { priority = p }))
        ≡ some (record c { priority = p }, new_controller_queue)
  unfolding pop_next pop push
  leaves_class high e h = refl
  leaves_class fw e h = elim (fw_waits c.command_id fw_mode sync_mode e h) [
    | inl z ↦ rw (z, pop_next) refl
    | inr (z, y) ↦ rw (z, y, pop_next) refl
  ]
  leaves_class sync e h =
      let z = sync_waits c.command_id fw_mode sync_mode e h in
      elim (Bool-cases sync_mode) [
        | inl y ↦ rw (z, y, pop_next) refl
        | inr y ↦ rw (z, y, pop_next) refl
      ]
  leaves_class query e h =
      let (z, y) = query_waits c.command_id fw_mode sync_mode e h in rw (z, y, pop_next) refl
  leaves_class (other p) e h = absurd (never_other c.command_id p e)

  -- A command with the priority of its id that is allowed in the modes leaves the queue in these
  -- modes: when it is queued alone, `PopNext` returns it.
  pub allowed_leaves :
      (c' : Command)
      → normalize_command_priority c ≡ ok c'
      → command_allowed_in_modes c.command_id fw_mode sync_mode ≡ true
      → pop_next fw_mode sync_mode (push new_controller_queue c') ≡ some (c', new_controller_queue)
  unfolding normalize_command_priority
  allowed_leaves c' n h = elim (Option-cases (lookup c.command_id canonical_priority)) [
    | inl e ↦
        let z : ◌≡◌ {A = Result PolicyError Command} (err (unsupported_command c.command_id))
            (ok c') =
          rw (e, normalize_command_priority) at n in
        cc
    | inr (p, e) ↦
        let z : ◌≡◌ {A = Result PolicyError Command} (ok (record c { priority = p })) (ok c') =
          rw (e, normalize_command_priority) at n in
        let same : record c { priority = p } ≡ c' = cc in rw (← same) (leaves_class p e h)
  ]
