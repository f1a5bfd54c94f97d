-- ===== src/Server/Policy.antt =====
-- internal/server/command_policy.go.
pub mod Laws
use tcpadapter.Common.{
  ℕ, Bool, true, false, not, ◌&&◌, ◌||◌, List, [], ◌∷◌, Option, none, some, Result, ok, err, ltb,
  leb, ◌==◌, if◌then◌else◌,
}
use tcpadapter.Common.Int.{ℤ, pos, negsuc, ltb_ℤ, leb_ℤ}
use tcpadapter.Common.Dict.{Dict, lookup, nat_eq}
use tcpadapter.Queue.{Priority, high, fw, sync, query, other, Command}
use tcpadapter.Protocol.Cmd.{fw_start, fw_block}
use tcpadapter.Session.Types.{DeliveryPolicy}

unfoldable pub canonical_priority : Dict ℕ Priority
canonical_priority =
    (1, high)
    ∷ (2, high)
    ∷ (3, high)
    ∷ (5, high)
    ∷ (6, query)
    ∷ (7, query)
    ∷ (8, high)
    ∷ (9, query)
    ∷ (10, query)
    ∷ (11, query)
    ∷ (12, sync)
    ∷ (13, sync)
    ∷ (14, sync)
    ∷ (15, sync)
    ∷ (16, sync)
    ∷ (17, high)
    ∷ (18, high)
    ∷ (19, high)
    ∷ (20, fw)
    ∷ (21, query)
    ∷ (22, query)
    ∷ (23, high)
    ∷ (24, high)
    ∷ (25, query)
    ∷ (27, query)
    ∷ []

-- `fmt.Errorf("unsupported command id: %d", ...)`
pub data PolicyError : Type 0 where
  unsupported_command : ℕ → PolicyError

unfoldable pub normalize_command_priority : Command → Result PolicyError Command
unfolding canonical_priority lookup
normalize_command_priority c = elim (lookup c.command_id canonical_priority) [
  | none ↦ err (unsupported_command c.command_id)
  | some p ↦ ok (record c { priority = p })
]

-- `ok && p == queue.PriorityHigh`
unfoldable pub is_high_command : ℕ → Bool
unfolding canonical_priority lookup
is_high_command id = elim (lookup id canonical_priority) [
  | none ↦ false
  | some p ↦ elim p [ high ↦ true | _ ↦ false ]
]

-- The `switch` of the commands that wait for the end of a synchronisation.
abbrev pub is_blocked_in_sync : ℕ → Bool
is_blocked_in_sync id =
    id == 2 || id == 3 || id == 17 || id == 18 || id == 19 || id == 20 || id == 23

unfoldable pub command_allowed_in_modes : ℕ → Bool → Bool → Bool
unfolding is_high_command
command_allowed_in_modes id fw_mode sync_mode =
    if fw_mode
    then (if id == 20 then true else is_high_command id)
    else if sync_mode
    then (if leb 12 id && leb id 16
        then true
        else if is_blocked_in_sync id
        then false
        else is_high_command id)
    else true

-- The fields of `config.Config` that the policy reads.
pub record PolicyConfig : Type 0 where
  pub general : DeliveryPolicy
  pub query : DeliveryPolicy
  pub sync : DeliveryPolicy
  pub fw : DeliveryPolicy

abbrev is_zero : ℤ → Bool
is_zero (pos n) = n == 0
is_zero (negsuc n) = false

unfoldable pub merge_delivery_policy : DeliveryPolicy → DeliveryPolicy → DeliveryPolicy
merge_delivery_policy base specific =
    if is_zero specific.ack_timeout
      && is_zero specific.retry_backoff
      && is_zero specific.max_retries
    then base
    else record {
      ack_timeout =
          if ltb_ℤ (pos 0) specific.ack_timeout then specific.ack_timeout else base.ack_timeout;
      retry_backoff =
          if leb_ℤ (pos 0) specific.retry_backoff
          then specific.retry_backoff
          else base.retry_backoff;
      max_retries =
          if leb_ℤ (pos 0) specific.max_retries then specific.max_retries else base.max_retries;
    }

-- The general policy with its two corrections.
abbrev base_policy : PolicyConfig → DeliveryPolicy
base_policy cfg = record {
  ack_timeout =
      if leb_ℤ cfg.general.ack_timeout (pos 0) then pos 10_000_000_000 else cfg.general.ack_timeout;
  retry_backoff = cfg.general.retry_backoff;
  max_retries = if ltb_ℤ cfg.general.max_retries (pos 0) then pos 0 else cfg.general.max_retries;
}

unfoldable pub delivery_policy_for_command : PolicyConfig → Command → DeliveryPolicy
unfolding merge_delivery_policy
delivery_policy_for_command cfg c = elim c.priority [
  | query ↦ merge_delivery_policy (base_policy cfg) cfg.query
  | sync ↦ merge_delivery_policy (base_policy cfg) cfg.sync
  | fw ↦ merge_delivery_policy (base_policy cfg) cfg.fw
  | _ ↦
      if c.command_id == fw_start || c.command_id == fw_block
      then merge_delivery_policy (base_policy cfg) cfg.fw
      else base_policy cfg
]
