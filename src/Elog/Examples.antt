-- ===== src/Elog/Examples.antt =====
-- Runs of the logger, and its theorems at concrete records.
use koro.Prelude.{ℕ, ◌≡◌, ◌≢◌, refl, true, false, none, some, [], ◌∷◌, arith}
use koro.Elog.Context.{Context, blank, get_short_name}
use koro.Elog.FixedBuffer.{Buffer, new_buffer, full, push, items}
use koro.Elog.FixedBuffer.Items.{new_buffer-IsBuffer, Pushed, push-Pushed}
use koro.Elog.AsyncLogging.{
  Shared, Worker, push_locked, collect, write_round, init_shared, init_worker,
}
use koro.Elog.AsyncLogging.System.{System, Step, Reach, Pc, init}
use koro.Elog.AsyncLogging.Delivery.{IsDelivered, Reach-IsDelivered, logged, pending}
use koro.Elog.AsyncLogging.Shutdown.{Steps, lost_at_exit}

short_name_run : get_short_name (b'a' ∷ b'/' ∷ b'b' ∷ []) ≡ b'b' ∷ []
unfolding get_short_name
short_name_run = refl

abbrev message : Context
message = record {
  timestamp = 1;
  tid = 2;
  level = 2;
  source = record { line = 3; full_name = none; short_name = none; func = none };
  text = b'h' ∷ b'i' ∷ [];
}

push-Pushed_example : (r : Buffer) × Pushed 2 (new_buffer 2 0) message r
push-Pushed_example = push-Pushed 2 (new_buffer 2 0) message (new_buffer-IsBuffer 2 0)

-- What a run computes with.
open_all : ℕ → ℕ → System
unfolding init init_shared init_worker push_locked push collect write_round new_buffer
    koro.Elog.AsyncLogging.take_cur koro.Elog.AsyncLogging.swap_bufs
    koro.Elog.AsyncLogging.refill_next koro.Elog.FixedBuffer.check koro.Elog.AsyncLogging.flat items
    koro.Elog.AsyncLogging.drop_excess koro.Elog.AsyncLogging.write_entries
    koro.Elog.AsyncLogging.recycle koro.Elog.AsyncLogging.first_or_new
    koro.Elog.AsyncLogging.second_or_new koro.Elog.FixedBuffer.reset
    koro.Elog.FixedBuffer.moved_from pending
open_all n now = init n now

abbrev one_message : Shared
one_message = record {
  done = false;
  cur_buf = record { ctxs = some (message ∷ blank 0 ∷ []); index = 1 };
  next_buf = new_buffer 2 0;
  bufs = [];
}

-- A caller has pushed one record.
abbrev pushed : System
pushed = record (init 2 0) { shared = one_message; sent = message ∷ [] }

pushed-Reach : Reach 2 0 pushed
unfolding open_all
pushed-Reach =
    Reach.later (Reach.later Reach.start (Step.check_done refl))
      (Step.push 0 0 message one_message refl refl)

abbrev taken : System
taken = record pushed {
  shared = (collect one_message (init_worker 2 0)).0;
  worker = (collect one_message (init_worker 2 0)).1;
  pc = Pc.writing;
}

taken-Reach : Reach 2 0 taken
unfolding open_all
taken-Reach = Reach.later (Reach.later pushed-Reach (Step.enter refl refl)) (Step.take refl)

abbrev written : System
written = record taken { worker = write_round 2 0 taken.worker; pc = Pc.top }

written-Reach : Reach 2 0 written
unfolding open_all
written-Reach = Reach.later taken-Reach (Step.write 0 refl)

Reach-IsDelivered_example : IsDelivered written
Reach-IsDelivered_example = Reach-IsDelivered {n = 2} {now = 0} (omega arith) written-Reach

written_run : logged written.worker.out ≡ message ∷ []
unfolding open_all
written_run = refl

-- `wait4Done` before the worker's next round: the record stays in its buffer.
abbrev stopped : System
stopped = record pushed { shared = record one_message { done = true }; pc = Pc.finished }

stopped-Reach : Reach 2 0 stopped
unfolding open_all
stopped-Reach = Reach.later (Reach.later pushed-Reach Step.do_done) (Step.leave refl refl)

stopped_pending : pending stopped.shared stopped.worker ≢ []
unfolding open_all
stopped_pending e = cc

lost_at_exit_example :
    (stopped.worker.out ≡ stopped.worker.out) × (logged stopped.worker.out ≢ stopped.sent)
unfolding open_all
lost_at_exit_example = lost_at_exit (omega arith) stopped-Reach refl refl stopped_pending Steps.stay
