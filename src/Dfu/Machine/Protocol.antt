-- ===== src/Dfu/Machine/Protocol.antt =====
-- The order of an update as include/smply/dfu/firmware_updater.hpp and ADR-0014, ADR-0021 to
-- ADR-0023 promise it, without the slot tables, the images and the budgets of
-- src/dfu/update_state_machine.cpp.
use smply.Prelude.{◌≡◌, Bool, true, false, ◌||◌, not, List, [], ◌∷◌}
pub mod Entries
pub mod Refinement

pub data Phase : Type 0 where
  preparing staging restarting rejoining applying window settling committing : Phase
  success stopped : Phase

-- `owed` says that the device is left about to swap or to revert.
pub record Update : Type 0 where
  pub phase : Phase
  pub owed : Bool

-- What a judged boot leads to.
abbrev pub after_boot : Phase → Bool
after_boot Phase.applying = true
after_boot Phase.window = true
after_boot Phase.committing = true
after_boot Phase.success = true
after_boot Phase.stopped = true
after_boot _ = false

-- What a round of planning leads to: an update in which nothing is queued is judged as it stands.
abbrev pub after_plan : Phase → Bool
after_plan Phase.preparing = true
after_plan Phase.staging = true
after_plan Phase.restarting = true
after_plan phase = after_boot phase

abbrev pub after_restart : Phase → Bool
after_restart Phase.restarting = true
after_restart Phase.rejoining = true
after_restart Phase.stopped = true
after_restart _ = false

abbrev pub after_window : Phase → Bool
after_window Phase.window = true
after_window Phase.settling = true
after_window Phase.rejoining = true
after_window Phase.stopped = true
after_window _ = false

abbrev pub after_settling : Phase → Bool
after_settling Phase.settling = true
after_settling Phase.rejoining = true
after_settling Phase.committing = true
after_settling Phase.success = true
after_settling Phase.stopped = true
after_settling _ = false

abbrev pub is_rejoining : Phase → Bool
is_rejoining Phase.rejoining = true
is_rejoining _ = false

abbrev pub is_success : Phase → Bool
is_success Phase.success = true
is_success _ = false

abbrev pub is_stopped : Phase → Bool
is_stopped Phase.stopped = true
is_stopped _ = false

-- A lost link rejoins; only a judged boot opens the confirmation window, and only the window leads
-- to the read-back of a confirm. The two ends have no way out.
abbrev pub edge : Phase → Phase → Bool
edge Phase.preparing next = after_plan next
edge Phase.staging next = after_plan next
edge Phase.restarting next = after_restart next
edge Phase.rejoining next = after_boot next || is_rejoining next
edge Phase.applying next = after_boot next || is_rejoining next
edge Phase.window next = after_window next
edge Phase.settling next = after_settling next
edge Phase.committing next = after_settling next
edge Phase.success next = is_success next
edge Phase.stopped next = is_stopped next

-- What is owed in the phase: a restart or a confirm is made only for a swap that is owed, and the
-- update settles, waits for the commit and succeeds only with none.
abbrev pub promised : Update → Bool
promised u = elim u.phase [
  | Phase.restarting ↦ u.owed
  | Phase.window ↦ u.owed
  | Phase.settling ↦ not u.owed
  | Phase.committing ↦ not u.owed
  | Phase.success ↦ not u.owed
  | _ ↦ true
]

infix 40 ◌⟶◌
pub data ◌⟶◌ : Update → Update → Type 0 where
  move : {u v : Update} → edge u.phase v.phase ≡ true → promised v ≡ true → u ⟶ v

-- A run of the protocol: the updates that it goes through from the first one on, in their order.
pub data Walk : Update → List Update → Type 0 where
  halt : {u : Update} → Walk u []
  further : {u v : Update} {vs : List Update} → u ⟶ v → Walk v vs → Walk u (v ∷ vs)
