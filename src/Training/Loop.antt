-- ===== src/Training/Loop.antt =====
-- The training loops with early stopping: a cycle of scripts/continuous_training.py and `train_to_max` of inference/train_model.py.
-- What torch makes of an epoch is a parameter: the accuracy on the validation set, in a fixed scale, and the traced model.
use ai_cyber_threat_detector.Common.{
  ℕ, zero, suc, ◌+◌, Bool, ◌&&◌, Option, none, some, if◌then◌else◌, ltb,
}
use ai_cyber_threat_detector.Training.Sidecar.{Library, Pair, save_traced_model}
use ai_cyber_threat_detector.Training.Deploy.{Files, save_temp, deploy}

-- the variables of a loop, and what it saves to
pub record Progress (S : Type 0) : Type 0 where
  pub best_acc : ℕ
  pub epochs_no_improve : ℕ
  pub epoch : ℕ
  pub store : S

abbrev pub fresh : {S : Type 0} → S → Progress S
fresh store = record { best_acc = 0; epochs_no_improve = 0; epoch = 0; store = store }

-- An epoch, for the accuracy that it reaches and what it does to the store if that is a new best one.
unfoldable pub train_epoch :
    {S : Type 0} → (accuracy : ℕ → ℕ) → (save : ℕ → S → S) → Progress S → Progress S
train_epoch accuracy save p =
    let acc_val = accuracy (p.epoch + 1) in
    if ltb p.best_acc acc_val
    then record {
      best_acc = acc_val;
      epochs_no_improve = 0;
      epoch = p.epoch + 1;
      store = save (p.epoch + 1) p.store;
    }
    else record p { epochs_no_improve = p.epochs_no_improve + 1; epoch = p.epoch + 1 }

-- `while` on `fuel`; `none` means that the fuel ran out
unfoldable pub train_while :
    {S : Type 0}
    → (goes_on : Progress S → Bool) → (accuracy : ℕ → ℕ) → (save : ℕ → S → S) → (fuel : ℕ)
    → Progress S
    → Option (Progress S)
unfolding train_epoch
train_while goes_on accuracy save zero p = none
train_while goes_on accuracy save (suc fuel) p =
    let rest = train_while goes_on accuracy save fuel (train_epoch accuracy save p) in
    if goes_on p then rest else some p

-- epochs_no_improve < patience and epoch < 30
unfoldable pub cycle_goes_on : {S : Type 0} → Progress S → Bool
cycle_goes_on p = ltb p.epochs_no_improve 5 && ltb p.epoch 30

-- best_acc < target_acc and epochs_no_improve < patience and epoch < 50
unfoldable pub max_goes_on : {S : Type 0} → (target_acc : ℕ) → Progress S → Bool
max_goes_on target_acc p =
    ltb p.best_acc target_acc && (ltb p.epochs_no_improve 8 && ltb p.epoch 50)

module _ {Bytes Model : Type 0} (lib : Library Bytes Model) (accuracy : ℕ → ℕ)
    (traced : ℕ → Bytes) where
  unfoldable pub save_best : ℕ → Files Bytes → Files Bytes
  unfolding save_temp
  save_best epoch f = save_temp lib (traced epoch) f

  -- the epochs of a cycle
  unfoldable pub train_cycle : Files Bytes → Option (Progress (Files Bytes))
  unfolding train_while cycle_goes_on save_best
  train_cycle f = train_while cycle_goes_on accuracy save_best 31 (fresh f)

  unfoldable pub save_max : ℕ → Pair Bytes → Pair Bytes
  unfolding save_traced_model
  save_max epoch p = (save_traced_model lib (traced epoch) p).1

  unfoldable pub train_to_max : (target_acc : ℕ) → Pair Bytes → Option (Progress (Pair Bytes))
  unfolding train_while max_goes_on save_max
  train_to_max target_acc p = train_while (max_goes_on target_acc) accuracy save_max 51 (fresh p)

-- The end of a cycle: the two files are replaced. `none` is the exception that restarts the cycle.
unfoldable pub end_cycle : {Bytes : Type 0} → Progress (Files Bytes) → Option (Files Bytes)
unfolding deploy
end_cycle p = deploy p.store
