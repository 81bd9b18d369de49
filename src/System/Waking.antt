-- ===== src/System/Waking.antt =====
-- The calls by which a task that waits comes back: `Sema::up` and `CondVar::notify` of
-- core/src/kernel/sync.rs and `try_wake_up` of core/src/kernel/ipc.rs.
use mos_rust.Config.{task_max}
use mos_rust.Prelude.{
  ℕ, ◌≡◌, ◌<◌, refl, sym, subst, ap, ◌∙◌, [], ◌∷◌, Bool, true, ◌||◌, ◌==◌, inl, inr, count,
  Bool-cases, arith, Run, ok, ◌>>=◌,
}
use mos_rust.TaskList.{HeaplessVec, TaskList, pop_front}
use mos_rust.Kernel.{ready, blocked, Kernel, set_status}
use mos_rust.Kernel.Invariant.{listed}
use mos_rust.Kernel.Invariant.Moves.{set_status-IsValid}
use mos_rust.Kernel.Sched.{yield_task}
use mos_rust.Kernel.Task.{preempt_woken}
use mos_rust.Kernel.Task.Rouse.{roused, roused-IsValid, roused-count}
use mos_rust.Sync.Sema.{Sema, is_negative, increment, up}
use mos_rust.Sync.Sema.Wakes.{up-counts, up-wakes, up_over}
use mos_rust.Sync.Sema.Waits.{kernel_of}
use mos_rust.Sync.CondVar.{CondVar, notify}
use mos_rust.Ipc.{try_wake_up}
use mos_rust.Ipc.Wake.{stirred, stirred-listed, stirred-IsLive, wake_up-eq}
use mos_rust.System.{head_waits, head_sleeps}
use mos_rust.System.Running.{IsRunning, Runs, yield_task-Runs}
use mos_rust.System.Leaving.{still-Runs}
use mos_rust.System.Arriving.{preempt_woken-Runs}

abbrev pub noted : Run (Kernel × CondVar) → Run Kernel
noted r = r >>= λ p. ok p.0

abbrev pub woken_by : Run (Kernel × TaskList) → Run Kernel
woken_by r = r >>= λ p. ok p.0

module _ ⦃vec : HeaplessVec⦄ where
  notify-none :
      (k : Kernel) → notify k (record { wait_queue = [] }) ≡ ok (k, record { wait_queue = [] })
  unfolding notify
  notify-none k = refl

  notify-wakes :
      (k : Kernel) (w : ℕ) (rest : TaskList)
      → notify k (record { wait_queue = w ∷ rest })
        ≡ (yield_task (roused k w) >>= λ k2. ok (k2, record { wait_queue = rest }))
  unfolding notify pop_front
  notify-wakes k w rest = rw (vec.remove_at [] rest w) refl

  try_wake_up-none : (k : Kernel) → try_wake_up k [] ≡ ok (k, [])
  unfolding try_wake_up pop_front
  try_wake_up-none k = refl

  -- The first task of a wait queue is marked as ready, and comes back.
  module _ {strict : Bool} {idle c : ℕ} {k : Kernel} (run : IsRunning strict idle k c) where
    open run use {live, sized, fit, present, idle_ready, highest}

    marked-IsRunning :
        (w : ℕ)
        → listed k w ≡ 0
        → (k.tcbs w).status ≡ blocked
        → IsRunning strict idle (set_status k w ready) c
    marked-IsRunning w out waited = record {
      live = record {
        valid =
            set_status-IsValid live.valid w ready (λ p. cc) (λ p. ground arith) (λ p. refl)
              (λ p. absurd (omega arith));
        runs_now = live.runs_now;
        started = live.started;
      };
      sized = record { stacked = sized.stacked; clocked = sized.clocked };
      fit = ground arith;
      present = present;
      idle_ready = idle_ready;
      highest = λ b u hu. ground (arith, highest b u hu);
    }

    roused-Runs :
        (w : ℕ)
        → w < task_max
        → listed k w ≡ 0
        → (k.tcbs w).status ≡ blocked
        → Runs strict idle (preempt_woken (roused k w) ((roused k w).tcbs w).priority)
    roused-Runs w lt out waited =
        preempt_woken-Runs (marked-IsRunning w out waited) w lt out (ground arith)
          ((roused k w).tcbs w).priority (ground arith)

    up_queue-Runs :
        (n : ℕ) (q : TaskList)
        → head_waits k q ≡ true
        → (is_negative (increment n) || (increment n == 0)) ≡ true
        → Runs strict idle (kernel_of (up k (record { count = n; wait_queue = q })))
    up_queue-Runs n [] h e =
        subst (λ r. Runs strict idle (kernel_of r)) (sym (up-counts k n)) (still-Runs run)
    up_queue-Runs n (w ∷ rest) h e =
        let r = roused-Runs w (ground arith) (ground arith) (ground arith) in
        record {
          after = r.after;
          task = r.task;
          returned =
              ap kernel_of (up-wakes k n w rest e)
              ∙ ap
                  (λ y.
                    kernel_of
                      (y >>= λ k3. ok (k3, record { count = increment n; wait_queue = rest })))
                  r.returned;
          running = r.running;
        }

    pub up-Runs :
        (s : Sema) → head_waits k s.wait_queue ≡ true → Runs strict idle (kernel_of (up k s))
    up-Runs s h = elim (Bool-cases (is_negative (increment s.count) || (increment s.count == 0))) [
      | inl wakes ↦ up_queue-Runs s.count s.wait_queue h wakes
      | inr over ↦
          subst (λ r. Runs strict idle (kernel_of r)) (sym (up_over k s over)) (still-Runs run)
    ]

    -- `CondVar::notify` switches whatever the priority of the woken task.
    pub notify-Runs :
        (q : TaskList)
        → head_waits k q ≡ true
        → Runs strict idle (noted (notify k (record { wait_queue = q })))
    notify-Runs [] h =
        subst (λ r. Runs strict idle (noted r)) (sym (notify-none k)) (still-Runs run)
    notify-Runs (w ∷ rest) h =
        let more = roused-count c w live (ground arith) (ground arith) (ground arith) in
        let r =
          yield_task-Runs c
            (record {
              valid = roused-IsValid c w live (ground arith) (ground arith) (ground arith);
              runs_now = live.runs_now;
              started = live.started;
            })
            (record { stacked = sized.stacked; clocked = sized.clocked })
            (ground (arith, more idle)) in
        record {
          after = r.after;
          task = r.task;
          returned =
              ap noted (notify-wakes k w rest)
              ∙ ap (λ y. noted (y >>= λ k2. ok (k2, record { wait_queue = rest }))) r.returned;
          running = r.running;
        }

  module _ {strict : Bool} {idle c : ℕ} {k : Kernel} (run : IsRunning strict idle k c) where
    open run use {live, sized, fit, present, idle_ready, highest}

    stirred-IsRunning :
        (w : ℕ) → 0 < count w k.sleeping_list → IsRunning strict idle (stirred k w) c
    stirred-IsRunning w h = record {
      live = stirred-IsLive c w live h;
      sized = record { stacked = sized.stacked; clocked = sized.clocked };
      fit = ground arith;
      present = present;
      idle_ready = idle_ready;
      highest = λ b u hu. ground (arith, highest b u hu);
    }

    -- The wake-up of a message queue takes the task off the sleeping list, too.
    pub wake-Runs :
        (q : TaskList) → head_sleeps k q ≡ true → Runs strict idle (woken_by (try_wake_up k q))
    wake-Runs [] h =
        subst (λ r. Runs strict idle (woken_by r)) (sym (try_wake_up-none k)) (still-Runs run)
    wake-Runs (w ∷ rest) h =
        let there : 0 < count w k.sleeping_list = ground arith in
        let was : (k.tcbs w).status ≡ blocked = ground (arith, live.valid.waits w) in
        let r =
          roused-Runs (stirred-IsRunning w there) w (ground (arith, live.valid.small w))
            (stirred-listed c w live there) (ground (arith, was)) in
        record {
          after = r.after;
          task = r.task;
          returned =
              ap woken_by (wake_up-eq c w live there rest)
              ∙ ap (λ y. woken_by (y >>= λ k2. ok (k2, rest))) r.returned;
          running = r.running;
        }
