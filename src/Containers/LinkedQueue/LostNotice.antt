-- ===== src/Containers/LinkedQueue/LostNotice.antt =====
-- The notice that `threadsafe_queue_ht` of ThreadSafeQue.h can lose: `push` calls `notify_one` without
-- `head_mutex`, so that it can fall between a consumer's test and its wait.
use boost_net_programing.Base.{◌≡◌, refl, [], ◌∷◌, ok}
use boost_net_programing.Containers.LinkedQueue.{
  saw_empty, LinkedQueue, link, push, wake_one, notify, fall_asleep, pushes, notifies, sleeps, step,
  run,
}
use boost_net_programing.Containers.LinkedQueue.Chain.{Holds}
use boost_net_programing.Containers.LinkedQueue.Fifo.{push-Holds}

module _ {A : Type 0} where
  -- A consumer sleeps, none is woken, no notice is due, and the queue holds the value.
  abbrev pub Stuck : LinkedQueue A → A → Type 0
  Stuck w x = Holds w (x ∷ []) × (w.asleep ≡ 1) × (w.woken ≡ 0) × (w.notices ≡ 0)

  -- When a consumer that holds `head_mutex` has found the queue empty and is about to wait, and no
  -- other sleeps or is woken and no notice is due, then a push and its notice that fall before the
  -- wait leave the consumer asleep, with nobody woken and no notice due, while the value is in the
  -- queue.
  pub push-notify-Stuck :
      (x : A) (w : LinkedQueue A)
      → Holds w []
      → w.holder ≡ saw_empty
      → w.asleep ≡ 0
      → w.woken ≡ 0
      → w.notices ≡ 0
      → (w' : LinkedQueue A) × (run (pushes x ∷ notifies ∷ sleeps ∷ []) w ≡ ok w') × Stuck w' x
  unfolding run step push link notify wake_one fall_asleep
  push-notify-Stuck x w v h a k n =
      let p = push-Holds x w [] v in
      rw (v.last, h, a, k, n)
        (
          _,
          refl,
          (
            record { chain = p.chain; last = p.last; below = p.below; seen = λ e. cc },
            refl,
            refl,
            refl,
          ),
        )
