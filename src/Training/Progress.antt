-- ===== src/Training/Progress.antt =====
-- The training loops end, and end with the best epoch.
use Prim.Native.String.{◌++◌}
use ai_cyber_threat_detector.Common.{
  ℕ, zero, suc, ◌+◌, ◌≤◌, ◌<◌, ◌≡◌, ◌⊎◌, inl, inr, refl, ap, Bool, true, false, ◌&&◌, none, some,
  ltb, arith, Bool-cases, both, ltb→lt,
}
use ai_cyber_threat_detector.Training.Sidecar.{Library, Pair}
use ai_cyber_threat_detector.Training.Deploy.{Files, deploy}
use ai_cyber_threat_detector.Training.Loop.{
  Progress, fresh, train_epoch, train_while, cycle_goes_on, max_goes_on, save_best, train_cycle,
  save_max, train_to_max, end_cycle,
}

last_or : (e n : ℕ) → e ≤ n + 1 → (e ≤ n) ⊎ (e ≡ n + 1)
last_or e n h = elim (Bool-cases (ltb n e)) [
  | inl b ↦ inr (ground (arith, h, b))
  | inr b ↦ inl (ground (arith, h, b))
]

-- a bound on the epochs so far that also holds of the next
bound_next :
    (accuracy : ℕ → ℕ) (n x : ℕ)
    → ((e : ℕ) → 1 ≤ e → e ≤ n → accuracy e ≤ x)
    → accuracy (n + 1) ≤ x
    → (e : ℕ) → 1 ≤ e
    → e ≤ n + 1
    → accuracy e ≤ x
bound_next accuracy n x past next e lo hi = elim (last_or e n hi) [
  | inl h ↦ past e lo h
  | inr h ↦ rw h next
]

epoch-train_epoch :
    {S : Type 0} (accuracy : ℕ → ℕ) (save : ℕ → S → S) (p : Progress S)
    → (train_epoch accuracy save p).epoch ≡ p.epoch + 1
unfolding train_epoch
epoch-train_epoch accuracy save p = elim (Bool-cases (ltb p.best_acc (accuracy (p.epoch + 1)))) [
  | inl b ↦ rw b refl
  | inr b ↦ rw b refl
]

module _ {S : Type 0} (accuracy : ℕ → ℕ) (save : ℕ → S → S) (Saved : ℕ → S → Type 0)
    (start : S) where
  -- The best accuracy bounds that of every epoch so far. Either it is that of an epoch whose model the store has, or it is 0 and
  -- the store is as it was.
  pub record IsBest (p : Progress S) : Type 0 where
    pub bounds : (e : ℕ) → 1 ≤ e → e ≤ p.epoch → accuracy e ≤ p.best_acc
    pub reached :
        ((p.best_acc ≡ 0) × (p.store ≡ start))
        ⊎ ((e : ℕ) × (1 ≤ e) × (e ≤ p.epoch) × (accuracy e ≡ p.best_acc) × Saved e p.store)

  fresh-IsBest : IsBest (fresh start)
  fresh-IsBest = record {
    bounds = λ e lo hi. absurd (omega (arith, lo, hi));
    reached = inl (refl, refl);
  }

  module _ (saves : (e : ℕ) (s : S) → Saved e (save e s)) where
    train_epoch-IsBest : (p : Progress S) → IsBest p → IsBest (train_epoch accuracy save p)
    unfolding train_epoch
    train_epoch-IsBest p h = elim (Bool-cases (ltb p.best_acc (accuracy (p.epoch + 1)))) [
      | inl b ↦ rw b (record {
        bounds =
            bound_next accuracy p.epoch (accuracy (p.epoch + 1))
              (λ e lo hi.
                omega (arith, h.bounds e lo hi, ltb→lt p.best_acc (accuracy (p.epoch + 1)) b))
              (omega arith);
        reached = inr (p.epoch + 1, omega arith, omega arith, refl, saves (p.epoch + 1) p.store);
      })
      | inr b ↦ rw b (record {
        bounds = bound_next accuracy p.epoch p.best_acc h.bounds (ground (arith, b));
        reached = elim h.reached [
          | inl r ↦ inl r
          | inr (e, lo, hi, same, there) ↦ inr (e, lo, omega (arith, hi), same, there)
        ];
      })
    ]

    train_while-IsBest :
        (goes_on : Progress S → Bool) (limit : ℕ)
        → ((p : Progress S) → goes_on p ≡ true → p.epoch < limit)
        → (fuel : ℕ) (p : Progress S) → limit < p.epoch + fuel
        → p.epoch ≤ limit
        → IsBest p
        → (q : Progress S) × (train_while goes_on accuracy save fuel p ≡ some q)
          × (goes_on q ≡ false)
          × (q.epoch ≤ limit)
          × IsBest q
    unfolding train_while
    train_while-IsBest goes_on limit stops zero p enough near h =
        absurd (omega (arith, enough, near))
    train_while-IsBest goes_on limit stops (suc fuel) p enough near h =
        elim (Bool-cases (goes_on p)) [
          | inl g ↦ rw g (
              train_while-IsBest goes_on limit stops fuel (train_epoch accuracy save p)
                (omega (arith, epoch-train_epoch accuracy save p, enough))
                (omega (arith, epoch-train_epoch accuracy save p, stops p g))
                (train_epoch-IsBest p h))
          | inr g ↦ rw g (p, refl, g, near, h)
        ]

module _ {S : Type 0} (p : Progress S) where
  cycle_stops : cycle_goes_on p ≡ true → p.epoch < 30
  unfolding cycle_goes_on
  cycle_stops h = ltb→lt p.epoch 30 (both (ltb p.epochs_no_improve 5) (ltb p.epoch 30) h).1

  cycle_ended : cycle_goes_on p ≡ false → p.epoch ≤ 30 → (5 ≤ p.epochs_no_improve) ⊎ (p.epoch ≡ 30)
  unfolding cycle_goes_on
  cycle_ended h near = elim (Bool-cases (ltb p.epochs_no_improve 5)) [
    | inl b ↦ inr (ground (arith, rw b at h, near))
    | inr b ↦ inl (ground (arith, b))
  ]

  max_stops : (target_acc : ℕ) → max_goes_on target_acc p ≡ true → p.epoch < 50
  unfolding max_goes_on
  max_stops target_acc h =
      let rest =
        (both (ltb p.best_acc target_acc) (ltb p.epochs_no_improve 8 && ltb p.epoch 50) h).1 in
      ltb→lt p.epoch 50 (both (ltb p.epochs_no_improve 8) (ltb p.epoch 50) rest).1

-- the files of a model with its digest, as a cycle and as `train_to_max` write it
module _ {Bytes Model : Type 0} (lib : Library Bytes Model) where
  abbrev pub pair_of : Bytes → Pair Bytes
  pair_of b = record { artifact = some b; sidecar = some (lib.sha256 b) }

  abbrev pub line_of : Bytes → Pair Bytes
  line_of b = record { artifact = some b; sidecar = some (lib.sha256 b ++ "\n") }

module _ {Bytes Model : Type 0} (lib : Library Bytes Model) (accuracy : ℕ → ℕ)
    (traced : ℕ → Bytes) where
  HasTemp : ℕ → Files Bytes → Type 0
  HasTemp e f = f.temp ≡ pair_of lib (traced e)

  save_best-HasTemp : (e : ℕ) (f : Files Bytes) → HasTemp e (save_best lib accuracy traced e f)
  unfolding HasTemp save_best
  save_best-HasTemp e f = refl

  deploy_live :
      (f : Files Bytes) (b : Bytes)
      → f.temp ≡ pair_of lib b
      → (g : Files Bytes) × (deploy f ≡ some g) × (g.live ≡ pair_of lib b)
  unfolding deploy
  deploy_live f b h = (
    record { live = pair_of lib b; temp = record { artifact = none; sidecar = none } },
    rw (ap (λ t. t.sidecar) h, ap (λ t. t.artifact) h, deploy) refl,
    refl,
  )

  -- A cycle of the trainer ends after at most 30 epochs, for every course that the accuracy takes, and it ends because five epochs brought nothing
  -- or all 30 are done. Its best accuracy is the highest of all epochs that ran, and what it then deploys is the model of an epoch that
  -- reached it, with its digest; only if no epoch got above 0 there is nothing new to deploy.
  pub train_cycle-end_cycle :
      (f : Files Bytes)
      → (q : Progress (Files Bytes)) × (train_cycle lib accuracy traced f ≡ some q)
        × (q.epoch ≤ 30)
        × ((5 ≤ q.epochs_no_improve) ⊎ (q.epoch ≡ 30))
        × ((e : ℕ) → 1 ≤ e → e ≤ q.epoch → accuracy e ≤ q.best_acc)
        × (((q.best_acc ≡ 0) × (q.store ≡ f))
            ⊎ ((e : ℕ) × (e ≤ q.epoch)
                × (accuracy e ≡ q.best_acc)
                × (g : Files Bytes) × (end_cycle q ≡ some g)
                × (g.live ≡ pair_of lib (traced e))))
  unfolding train_cycle HasTemp end_cycle deploy
  train_cycle-end_cycle f =
      let (q, run, stop, near, best) =
        train_while-IsBest accuracy (save_best lib accuracy traced) HasTemp f save_best-HasTemp
          cycle_goes_on 30 cycle_stops 31 (fresh f) (omega arith) (omega arith)
          (fresh-IsBest accuracy (save_best lib accuracy traced) HasTemp f) in
      (
        q,
        run,
        near,
        cycle_ended q stop near,
        best.bounds,
        elim best.reached [
          | inl r ↦ inl r
          | inr (e, lo, hi, same, there) ↦
              let (g, deployed, live) = deploy_live q.store (traced e) there in
              inr (e, hi, same, g, deployed, live)
        ],
      )

  HasPair : ℕ → Pair Bytes → Type 0
  HasPair e p = p ≡ line_of lib (traced e)

  save_max-HasPair : (e : ℕ) (p : Pair Bytes) → HasPair e (save_max lib accuracy traced e p)
  unfolding HasPair save_max
  save_max-HasPair e p = refl

  -- `train_to_max` ends after at most 50 epochs, for every course that the accuracy takes and every target. Its best accuracy is the highest
  -- of all epochs that ran, and the model file with its sidecar is that of an epoch that reached it; only if no epoch got above 0
  -- the files are as they were.
  pub train_to_max-line_of :
      (target_acc : ℕ) (p : Pair Bytes)
      → (q : Progress (Pair Bytes)) × (train_to_max lib accuracy traced target_acc p ≡ some q)
        × (q.epoch ≤ 50)
        × (max_goes_on target_acc q ≡ false)
        × ((e : ℕ) → 1 ≤ e → e ≤ q.epoch → accuracy e ≤ q.best_acc)
        × (((q.best_acc ≡ 0) × (q.store ≡ p))
            ⊎ ((e : ℕ) × (e ≤ q.epoch)
                × (accuracy e ≡ q.best_acc)
                × (q.store ≡ line_of lib (traced e))))
  unfolding train_to_max HasPair
  train_to_max-line_of target_acc p =
      let (q, run, stop, near, best) =
        train_while-IsBest accuracy (save_max lib accuracy traced) HasPair p save_max-HasPair
          (max_goes_on target_acc) 50 (λ r. max_stops r target_acc) 51 (fresh p) (omega arith)
          (omega arith) (fresh-IsBest accuracy (save_max lib accuracy traced) HasPair p) in
      (
        q,
        run,
        near,
        stop,
        best.bounds,
        elim best.reached [
          | inl r ↦ inl r
          | inr (e, lo, hi, same, there) ↦ inr (e, hi, same, there)
        ],
      )
